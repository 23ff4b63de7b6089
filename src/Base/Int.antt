-- ===== src/Base/Int.antt =====
-- Go's `int` and `int64`: an integer, with every result taken back to 64 bits.
pub mod Exact
use Prim.Native.Nat.{ℕ, zero, suc, ◌+◌, ◌-◌, ◌*◌, ◌/◌, ◌%◌, ◌≤◌, ◌<◌}
use mathlib.Core.Path.{◌≡◌, refl}
use mathlib.Core.Logic.{◌⊎◌, inl, inr}
use mathlib.Core.Bool.{Bool, ◌&&◌}
use mathlib.Core.Option.{Option, none, some}
use native.Mathlib.Omega.{arith}
use replicator.Base.Tests.{if◌then◌else◌, ltb, leb}

-- `negsuc n` is -(n + 1).
pub data ℤ : Type 0 where
  pos : ℕ → ℤ
  negsuc : ℕ → ℤ

abbrev pub pos_part : ℤ → ℕ
pos_part (pos n) = n
pos_part (negsuc n) = 0

abbrev pub neg_part : ℤ → ℕ
neg_part (pos n) = 0
neg_part (negsuc n) = suc n

-- The difference of two numbers.
abbrev pub sub_ℕ : ℕ → ℕ → ℤ
sub_ℕ a b = if leb b a then pos (a - b) else negsuc (b - a - 1)

infix 50 ◌≤ℤ◌ ◌<ℤ◌
abbrev pub ◌≤ℤ◌ : ℤ → ℤ → Type 0
a ≤ℤ b = pos_part a + neg_part b ≤ pos_part b + neg_part a

abbrev pub ◌<ℤ◌ : ℤ → ℤ → Type 0
a <ℤ b = pos_part a + neg_part b < pos_part b + neg_part a

abbrev pub ltz : ℤ → ℤ → Bool
ltz a b = ltb (pos_part a + neg_part b) (pos_part b + neg_part a)

abbrev pub lez : ℤ → ℤ → Bool
lez a b = leb (pos_part a + neg_part b) (pos_part b + neg_part a)

abbrev pub eqz : ℤ → ℤ → Bool
eqz a b = lez a b && lez b a

infixl 65 ◌+ℤ◌ ◌-ℤ◌
infixl 70 ◌*ℤ◌
unfoldable pub ◌+ℤ◌ : ℤ → ℤ → ℤ
a +ℤ b = sub_ℕ (pos_part a + pos_part b) (neg_part a + neg_part b)

unfoldable pub ◌-ℤ◌ : ℤ → ℤ → ℤ
a -ℤ b = sub_ℕ (pos_part a + neg_part b) (neg_part a + pos_part b)

unfoldable pub ◌*ℤ◌ : ℤ → ℤ → ℤ
a *ℤ b =
    sub_ℕ (pos_part a * pos_part b + neg_part a * neg_part b)
      (pos_part a * neg_part b + neg_part a * pos_part b)

abbrev word_size : ℕ
word_size = 18446744073709551616

abbrev half_word : ℕ
half_word = 9223372036854775808

-- The bits of an integer in two's complement, cut off at 64.
to_word : ℤ → ℕ
to_word (pos n) = n % word_size
to_word (negsuc n) = word_size - 1 - n % word_size

of_word : ℕ → ℤ
of_word n = if ltb n half_word then pos n else negsuc (word_size - 1 - n)

-- The 64-bit integer with the same low 64 bits.
unfoldable pub wrap : ℤ → ℤ
unfolding to_word of_word
wrap a = of_word (to_word a)

-- What 64 bits hold.
abbrev pub IsInt : ℤ → Type 0
IsInt a = (pos_part a < 9223372036854775808) × (neg_part a ≤ 9223372036854775808)

unfoldable pub add_int : ℤ → ℤ → ℤ
add_int a b = wrap (a +ℤ b)

unfoldable pub sub_int : ℤ → ℤ → ℤ
sub_int a b = wrap (a -ℤ b)

unfoldable pub mul_int : ℤ → ℤ → ℤ
mul_int a b = wrap (a *ℤ b)

-- Integer division, which rounds towards zero; `none` is the panic at a zero divisor.
unfoldable pub div_int : ℤ → ℤ → Option ℤ
div_int a (pos zero) = none
div_int a (pos (suc d)) = some (wrap (sub_ℕ (pos_part a / suc d) (neg_part a / suc d)))
div_int a (negsuc d) = some (wrap (sub_ℕ (neg_part a / suc d) (pos_part a / suc d)))

pub wrap-eq : (a : ℤ) → IsInt a → wrap a ≡ a
unfolding wrap
wrap-eq (pos n) h = ground arith
wrap-eq (negsuc n) h = ground arith

pub wrap-IsInt : (a : ℤ) → IsInt (wrap a)
unfolding wrap
wrap-IsInt (pos n) = ground arith
wrap-IsInt (negsuc n) = ground arith

pub +ℤ_parts :
    (a b : ℤ)
    → pos_part (a +ℤ b) + neg_part a + neg_part b ≡ neg_part (a +ℤ b) + pos_part a + pos_part b
unfolding ◌+ℤ◌
+ℤ_parts a b = ground arith

pub -ℤ_parts :
    (a b : ℤ)
    → pos_part (a -ℤ b) + neg_part a + pos_part b ≡ neg_part (a -ℤ b) + pos_part a + neg_part b
unfolding ◌-ℤ◌
-ℤ_parts a b = ground arith

pub eq_of_parts : (a b : ℤ) → pos_part a + neg_part b ≡ pos_part b + neg_part a → a ≡ b
eq_of_parts a b h = ground arith

-- An integer has one of its parts.
pub parts_apart : (a : ℤ) → (pos_part a ≡ 0) ⊎ (neg_part a ≡ 0)
parts_apart (pos n) = inr refl
parts_apart (negsuc n) = inl refl

pub ruleset int_laws = (arith, +ℤ_parts, -ℤ_parts, eq_of_parts)

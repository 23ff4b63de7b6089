-- ===== src/Base/Int/Exact.antt =====
-- Where 64 bits hold the result, the operations are those of the integers.
use Prim.Native.Nat.{ℕ, suc, ◌+◌, ◌*◌, ◌/◌, ◌≤◌, ◌<◌}
use mathlib.Core.Path.{◌≡◌, ap, ◌∙◌}
use mathlib.Core.Option.{some}
use native.Mathlib.Omega.{arith}
use replicator.Base.Int.{
  pos, sub_ℕ, ◌-ℤ◌, ◌*ℤ◌, ◌+ℤ◌, wrap, wrap-eq, add_int, sub_int, mul_int, div_int,
}

pub add_int-pos : (a b : ℕ) → a + b < 9223372036854775808 → add_int (pos a) (pos b) ≡ pos (a + b)
unfolding add_int ◌+ℤ◌
add_int-pos a b h = wrap-eq _ (ground arith) ∙ ground arith

pub mul_int-pos : (a b : ℕ) → a * b < 9223372036854775808 → mul_int (pos a) (pos b) ≡ pos (a * b)
unfolding mul_int ◌*ℤ◌
mul_int-pos a b h = wrap-eq _ (ground arith) ∙ ground arith

pub div_int-pos :
    (a d : ℕ) → a < 9223372036854775808 → div_int (pos a) (pos (suc d)) ≡ some (pos (a / suc d))
unfolding div_int
div_int-pos a d h =
    ap some (ap wrap (ground arith) ∙ wrap-eq (pos (a / suc d)) (omega arith, omega arith))

sub_ℕ-sub : (x y b : ℕ) → sub_ℕ x y -ℤ pos b ≡ sub_ℕ x (y + b)
unfolding ◌-ℤ◌
sub_ℕ-sub x y b = ground arith

sub_pos : (x b : ℕ) → pos x -ℤ pos b ≡ sub_ℕ x b
unfolding ◌-ℤ◌
sub_pos x b = ground arith

-- Taking away from a difference.
pub sub_int-sub_ℕ :
    (x y b : ℕ)
    → x < 9223372036854775808
    → y + b ≤ 9223372036854775808
    → sub_int (sub_ℕ x y) (pos b) ≡ sub_ℕ x (y + b)
unfolding sub_int
sub_int-sub_ℕ x y b h k =
    ap wrap (sub_ℕ-sub x y b) ∙ wrap-eq (sub_ℕ x (y + b)) (ground arith, ground arith)

pub sub_int-pos :
    (x b : ℕ)
    → x < 9223372036854775808
    → b ≤ 9223372036854775808
    → sub_int (pos x) (pos b) ≡ sub_ℕ x b
unfolding sub_int
sub_int-pos x b h k = ap wrap (sub_pos x b) ∙ wrap-eq (sub_ℕ x b) (ground arith, ground arith)

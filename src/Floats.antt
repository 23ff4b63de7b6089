-- ===== src/Floats.antt =====
-- `float64`, and `percent.PercentOf` of github.com/dariubs/percent: parameters of the model.
-- Comparison follows IEEE 754, so that a number that is not a number (0 / 0) is below nothing,
-- above nothing and equal to nothing.
use replicator.Base.{Bool, true, false, ◌≡◌, ◌⊎◌}
use replicator.Base.Int.{ℤ}

pub record Floats (F : Type 0) : Type 0 where
  pub zero : F
  -- The constant 90.0.
  pub ninety : F
  pub lt : F → F → Bool
  pub eq : F → F → Bool
  pub add : F → F → F
  pub div : F → F → F
  pub of_int : ℤ → F
  pub percent_of : ℤ → ℤ → F

-- What the program relies on: `<` is a strict order, total on the numbers that equal themselves, and
-- `==` is an equivalence there that `<` respects.
pub record IsOrdered {F : Type 0} (f : Floats F) : Type 0 where
  pub lt_irrefl : (a : F) → f.lt a a ≡ false
  pub lt_trans : (a b c : F) → f.lt a b ≡ true → f.lt b c ≡ true → f.lt a c ≡ true
  pub lt_total :
      (a b : F)
      → f.eq a a ≡ true
      → f.eq b b ≡ true
      → (f.lt a b ≡ true) ⊎ ((f.eq a b ≡ true) ⊎ (f.lt b a ≡ true))
  pub lt_eq : (a b c : F) → f.lt a b ≡ true → f.eq b c ≡ true → f.lt a c ≡ true
  pub eq_lt : (a b c : F) → f.eq a b ≡ true → f.lt b c ≡ true → f.lt a c ≡ true

-- ===== src/Base/Effect.antt =====
-- Calls that read or change the outside world `W`.

abbrev pub M : Type 0 → Type 0 → Type 0
M W A = W → W × A

module _ {W : Type 0} where
  abbrev pub pure : {A : Type 0} → A → M W A
  pure a w = (w, a)

  infixl 5 ◌>>=◌ ◌>>◌
  abbrev pub ◌>>=◌ : {A B : Type 0} → M W A → (A → M W B) → M W B
  ◌>>=◌ m f w = let r = m w in f r.1 r.0

  abbrev pub ◌>>◌ : {A B : Type 0} → M W A → M W B → M W B
  ◌>>◌ m k w = k (m w).0

  -- A call whose result is dropped.
  abbrev pub ignore : {A : Type 0} → M W A → M W (Unit {0})
  ignore m w = ((m w).0, tt)

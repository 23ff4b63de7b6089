-- ===== src/Polling/Laws.antt =====
-- What an answer of a polling loop says.
use replicator.Base.{ℕ, zero, suc, ◌≡◌, refl, ◌⊎◌, inl, inr}
use replicator.Polling.{Tick, again, finished, poll}

module _ {W S A : Type 0} (late : A) (attempt : S → W → W × S × Tick A) where
  -- The answer of a polling loop is that of the timeout or that of one of its attempts.
  pub poll-finished :
      (ticks : ℕ) (s : S) (w : W)
      → ((poll late attempt ticks s w).1 ≡ late)
        ⊎ ((s' : S) × (w' : W) × ((attempt s' w').2 ≡ finished (poll late attempt ticks s w).1))
  unfolding poll
  poll-finished zero s w = inl refl
  poll-finished (suc ticks) s w =
      go (attempt s w).2 refl (poll-finished ticks (attempt s w).1 (attempt s w).0)
    where
      go :
          (t : Tick A)
          → (attempt s w).2 ≡ t
          → ((poll late attempt ticks (attempt s w).1 (attempt s w).0).1 ≡ late)
            ⊎ ((s' : S) × (w' : W) × ((attempt s' w').2
                  ≡ finished (poll late attempt ticks (attempt s w).1 (attempt s w).0).1))
          → ((poll late attempt (suc ticks) s w).1 ≡ late)
            ⊎ ((s' : S) × (w' : W) × ((attempt s' w').2
                  ≡ finished (poll late attempt (suc ticks) s w).1))
      go again e rest = rw (e, poll) rest
      go (finished a) e rest = inr (s, w, rw (e, poll) refl)

-- ===== src/Polling.antt =====
-- The loops over a ticker and a timeout of cloud/aws, helper/funcs.go and client/nomad.go: each tick
-- makes one attempt, until an attempt is the last or the timeout comes. How many ticks come before the
-- timeout is a parameter.
pub mod Laws
use replicator.Base.{ℕ, zero, suc, M}

pub data Tick (A : Type 0) : Type 0 where
  again : Tick A
  finished : A → Tick A

module _ {W S A : Type 0} (late : A) (attempt : S → W → W × S × Tick A) where
  -- The answer `late` is that of the timeout. The state `S` is what the loop remembers.
  unfoldable pub poll : ℕ → S → M W A
  poll zero s w = (w, late)
  poll (suc ticks) s w =
      let (w', s', t) = attempt s w in elim t [ again ↦ poll ticks s' w' | finished a ↦ (w', a) ]

-- A loop that remembers nothing.
unfoldable pub poll_again : {W A : Type 0} → A → (W → W × Tick A) → ℕ → M W A
unfolding poll
poll_again late attempt ticks =
    poll late (λ (s : Unit {0}) w. let (w', t) = attempt w in (w', s, t)) ticks tt

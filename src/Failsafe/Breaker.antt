-- ===== src/Failsafe/Breaker.antt =====
-- What the circuit breaker guarantees.
use replicator.Base.{Bool, true, false, ◌≡◌, refl, sym, ◌∙◌, ◌↔◌, List, arith}
use replicator.Base.Int.{ℤ, pos, ◌<ℤ◌}
use replicator.Structs.{ScalingState}
use replicator.World.{Consul, Notifier, FailureMessage}
use replicator.State.{persist_state, read_state}
use replicator.State.Laws.{IsFaithful, read_state-persist_state}
use replicator.Failsafe.{prepare, set_failsafe_mode, failsafe_check}

module _ {W B : Type 0} (c : Consul W B) (notifiers : List (Notifier W)) where
  -- Scaling is permitted exactly if the failsafe mode is off and the failures are below the
  -- threshold.
  pub failsafe_check_iff :
      (state : ScalingState) (threshold : ℤ) (message : FailureMessage) (w : W)
      → ((failsafe_check c notifiers state threshold message w).1.1 ≡ true)
        ↔ ((state.failsafe_mode ≡ false) × (state.failure_count <ℤ threshold))
  unfolding failsafe_check
  failsafe_check_iff state threshold message w = (λ h. ground arith, λ h. ground arith)

  pub set_failsafe_mode_mode :
      (state : ScalingState) (enabled : Bool) (message : FailureMessage) (w : W)
      → (set_failsafe_mode c notifiers state enabled message w).1.0.failsafe_mode ≡ enabled
  unfolding set_failsafe_mode persist_state
  set_failsafe_mode_mode state enabled message w = refl

  -- A check that refuses leaves the state in failsafe mode, and a check that permits leaves state
  -- and world as they were.
  pub failsafe_check_state :
      (state : ScalingState) (threshold : ℤ) (message : FailureMessage) (w : W)
      → let r = failsafe_check c notifiers state threshold message w in
        (r.1.1 ≡ false → r.1.0.failsafe_mode ≡ true) × (r.1.1 ≡ true → r ≡ (w, (state, true)))
  unfolding failsafe_check
  failsafe_check_state state threshold message w =
      (λ h. ground (arith, set_failsafe_mode_mode state true message w), λ h. ground arith)

  -- A check that refused is final: the next one, at any threshold and with any message, refuses too
  -- and changes nothing, so that no second notification is sent and nothing is persisted again.
  failsafe_check_again :
      (state : ScalingState) (threshold threshold' : ℤ) (message message' : FailureMessage) (w : W)
      → let r = failsafe_check c notifiers state threshold message w in
        r.1.1 ≡ false
        → failsafe_check c notifiers r.1.0 threshold' message' r.0 ≡ (r.0, (r.1.0, false))
  unfolding failsafe_check
  failsafe_check_again state threshold threshold' message message' w refused =
      again (failsafe_check c notifiers state threshold message w).1.0
        (failsafe_check c notifiers state threshold message w).0
        ((failsafe_check_state state threshold message w).0 refused)
    where
      again :
          (s : ScalingState) (v : W)
          → s.failsafe_mode ≡ true
          → failsafe_check c notifiers s threshold' message' v ≡ (v, (s, false))
      again s v on = ground arith

  -- After failsafe mode is disabled a check permits scaling exactly if its threshold is positive:
  -- neither the mode nor the failures counted before are left.
  failsafe_check-set_failsafe_mode :
      (state : ScalingState) (threshold : ℤ) (message message' : FailureMessage) (w : W)
      → let r = set_failsafe_mode c notifiers state false message w in
        ((failsafe_check c notifiers r.1.0 threshold message' r.0).1.1 ≡ true)
        ↔ (pos 0 <ℤ threshold)
  unfolding failsafe_check set_failsafe_mode persist_state
  failsafe_check-set_failsafe_mode state threshold message message' w =
      (λ h. ground arith, λ h. ground arith)

  pub prepare_path :
      (enabled : Bool) (message : FailureMessage) (state : ScalingState) (w : W)
      → (prepare c notifiers enabled message state w).1.state_path ≡ state.state_path
  unfolding prepare persist_state
  prepare_path true message state w = ground arith
  prepare_path false message state w = refl

  permits :
      (u v : ScalingState) (threshold : ℤ) (message : FailureMessage) (w : W)
      → u ≡ v
      → ((failsafe_check c notifiers u threshold message w).1.1 ≡ true)
        ↔ ((v.failsafe_mode ≡ false) × (v.failure_count <ℤ threshold))
  permits u v threshold message w e = rw e (failsafe_check_iff v threshold message w)

  -- Over a faithful store, once one copy of the program has set the failsafe mode and persisted it
  -- without an error, any copy that reads the state at that path and checks it is refused exactly
  -- if the mode was set to on, or the failures that were stored reach its threshold.
  pub failsafe_check-read_state :
      (state t : ScalingState) (enabled force : Bool) (threshold : ℤ)
      (message message' : FailureMessage) (w : W)
      → IsFaithful c
      → t.state_path ≡ state.state_path
      → let r = set_failsafe_mode c notifiers state enabled message w in
        r.1.1 ≡ false
        → let read = read_state c t force r.0 in
          ((failsafe_check c notifiers read.1 threshold message' read.0).1.1 ≡ true)
          ↔ ((enabled ≡ false) × (r.1.0.failure_count <ℤ threshold))
  unfolding set_failsafe_mode persist_state
  failsafe_check-read_state state t enabled force threshold message message' w law same written =
      let p = prepare c notifiers enabled message state w in
      let s : ScalingState = record p.1 { failsafe_mode = enabled } in
      permits (read_state c t force (persist_state c s p.0).0).1 _ threshold message' _ (
        read_state-persist_state c s t force p.0 law
          (same ∙ sym (prepare_path enabled message state w)) written)

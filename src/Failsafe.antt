-- ===== src/Failsafe.antt =====
-- replicator/failsafe.go: the circuit breaker of a worker pool or job group. Logging is left out.
pub mod Breaker
pub mod Kept
use replicator.Base.{
  String, Bool, true, false, not, List, [], ◌∷◌, if◌then◌else◌, ◌==◌, string_eq, M, pure, ◌>>=◌,
  ◌>>◌,
}
use replicator.Base.Int.{ℤ, pos, lez}
use replicator.Structs.{ScalingState}
use replicator.World.{Consul, Notifier, FailureMessage}
use replicator.State.{persist_state}

abbrev pub cluster_type : String
cluster_type = "worker_pool"

abbrev pub job_type : String
job_type = "job_group"

abbrev cluster_message : String
cluster_message = "cluster_failsafe_mode"

abbrev job_message : String
job_message = "job_group_failsafe_mode"

-- The message that the backends get: the `switch` of `sendFailsafeNotification` and the state path.
pub notification : FailureMessage → ScalingState → FailureMessage
notification message state = record message {
  reason =
      if message.resource_type == cluster_type
      then cluster_message
      else if message.resource_type == job_type
      then job_message
      else message.reason;
  state_path = state.state_path;
}

module _ {W : Type 0} where
  -- Each backend in turn.
  pub send_all : List (Notifier W) → FailureMessage → W → W
  send_all [] message w = w
  send_all (n ∷ ns) message w = send_all ns message (n.send_notification message w)

module _ {W B : Type 0} (c : Consul W B) (notifiers : List (Notifier W)) where
  notify_and_stamp : FailureMessage → ScalingState → M W ScalingState
  unfolding persist_state
  notify_and_stamp message state w =
      (do
        time ← c.now
        r ← persist_state c (record state { last_notification_event = time })
        pure r.0)
        (send_all notifiers message w)

  -- `sendFailsafeNotification`. The error of `PersistState` is only logged.
  unfoldable pub send_failsafe_notification : FailureMessage → ScalingState → M W ScalingState
  unfolding notification notify_and_stamp
  send_failsafe_notification message state = elim notifiers [
    | [] ↦ pure state
    | n ∷ ns ↦ notify_and_stamp (notification message state) state
  ]

  -- The notification of the case `true` of `SetFailsafeMode`.
  announce : FailureMessage → ScalingState → M W ScalingState
  unfolding send_failsafe_notification
  announce message state =
      if state.failsafe_mode then pure state else send_failsafe_notification message state

  unfoldable pub prepare : Bool → FailureMessage → ScalingState → M W ScalingState
  unfolding announce
  prepare true message state = announce message state
  prepare false message state = pure (record state { failure_count = pos 0 })

  -- `SetFailsafeMode`: the state, and whether it could not be persisted.
  unfoldable pub set_failsafe_mode :
      ScalingState → Bool → FailureMessage → M W (ScalingState × Bool)
  unfolding prepare
  set_failsafe_mode state enabled message = do
    state' ← prepare enabled message state
    persist_state c (record state' { failsafe_mode = enabled })

  trip : ScalingState → FailureMessage → M W (ScalingState × Bool)
  unfolding set_failsafe_mode
  trip state message = do r ← set_failsafe_mode state true message; pure (r.0, false)

  -- `FailsafeCheck`: the state, and whether scaling is permitted.
  unfoldable pub failsafe_check : ScalingState → ℤ → FailureMessage → M W (ScalingState × Bool)
  unfolding trip
  failsafe_check state threshold message =
      if state.failsafe_mode
      then pure (state, false)
      else if lez threshold state.failure_count
      then trip state message
      else pure (state, true)

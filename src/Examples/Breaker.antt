-- ===== src/Examples/Breaker.antt =====
-- The circuit breaker and the stored state at concrete inputs.
use replicator.Base.{true, false, ◌≡◌, ◌↔◌, List, [], ◌∷◌, refl}
use replicator.Base.Int.{pos, ◌<ℤ◌}
use replicator.Structs.{ScalingState, new_scaling_state}
use replicator.World.{FailureMessage, Notifier}
use replicator.State.{persist_state, read_state}
use replicator.State.Laws.{read_state-persist_state}
use replicator.Failsafe.{set_failsafe_mode, failsafe_check}
use replicator.Failsafe.Breaker.{failsafe_check-read_state}
use replicator.Examples.Concrete.{World, new_world, consul, consul-IsFaithful, pager}

abbrev message : FailureMessage
message = record {
  alert_uid = "uid";
  cluster_identifier = "";
  reason = "";
  resource_id = "web";
  resource_type = "worker_pool";
  state_path = "";
}

abbrev pagers : List (Notifier World)
pagers = pager ∷ []

abbrev state : ScalingState
state = new_scaling_state "web" "worker_pool" "replicator/config/state/nodes/web"

abbrev failing : ScalingState
failing = record state { failure_count = pos 3 }

read_state-persist_state_example :
    (read_state consul state true (persist_state consul failing new_world).0).1
    ≡ record failing { last_updated = 1000 }
unfolding persist_state new_scaling_state
read_state-persist_state_example =
    read_state-persist_state consul failing state true new_world consul-IsFaithful refl refl

failsafe_check-read_state_example :
    let r = set_failsafe_mode consul pagers failing true message new_world in
    let read = read_state consul state true r.0 in
    ((failsafe_check consul pagers read.1 (pos 9) message read.0).1.1 ≡ true)
    ↔ ((true ≡ false) × (r.1.0.failure_count <ℤ pos 9))
unfolding set_failsafe_mode persist_state new_scaling_state
failsafe_check-read_state_example =
    failsafe_check-read_state consul pagers failing state true true (pos 9) message message
      new_world consul-IsFaithful refl refl

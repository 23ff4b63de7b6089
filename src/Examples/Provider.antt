-- ===== src/Examples/Provider.antt =====
-- The provider of AWS and the drain of a node at concrete inputs.
use replicator.Base.{err, ◌⊎◌, true, false, ◌≡◌, refl, some, [], ◌∷◌, arith, ok, ◌↔◌, string_eq}
use replicator.Base.Int.{pos}
use replicator.Structs.{
  ScalingState, new_scaling_state, WorkerPool, new_worker_pool, new_node_registry, inward,
}
use replicator.Drain.{NomadDrain, drain_node}
use replicator.Drain.Laws.{IsLost, drain_node_iff}
use replicator.Aws.Termination.{IsTerminated, terminate_instance_iff}
use replicator.Polling.{poll, poll_again}
use replicator.Aws.{
  ScalingGroup, AwsApi, Patience, safety_check, terminate_instance, await_activity,
  translate_ip_to_id,
}
use replicator.Aws.Provider.{verify_scaled_node, scale_in, drop_last, retire, detach_and_retire}
use replicator.Aws.Rounds.{Ends, verify_scaled_node-Ends}
use replicator.Aws.Limits.{Fits, safety_check_iff}
use replicator.Aws.Eligible.{scale_in_first}
use replicator.State.{persist_state}
use replicator.Examples.Concrete.{World, new_world, consul, node_of, pool_named}

abbrev group : ScalingGroup
group = record {
  desired_capacity = pos 1;
  max_size = pos 3;
  min_size = pos 1;
  instances = "i-1" ∷ [];
}

abbrev api : AwsApi World
api = record {
  describe_groups = λ name w. (w, (group ∷ [], false));
  update_group = λ name capacity w. (w, false);
  detach = λ asg id w. (w, ok (record { id = "a-1"; status = "Successful" } ∷ []));
  describe_activities = λ id w. (w, ok (record { id = "a-1"; status = "Successful" } ∷ []));
  instances_at = λ ip region w. (w, ok (("i-1" ∷ []) ∷ []));
  instances_of = λ asg region w.
      (w, ok ((record { id = "i-1"; ip = "10.0.0.1"; launch_time = 999 } ∷ []) ∷ []));
  terminate = λ id region w. (w, false);
  instance_states = λ id region w. (w, ok ("terminated" ∷ []));
  tick = λ w. w;
  time = λ w. (w, w.clock);
  registry = λ w. (w, new_node_registry);
  find_string = λ pattern s. s;
}

abbrev patience : Patience
patience = record { recent = 30; result = 60; update = 360; termination = 18; joined = 30 }

abbrev web : WorkerPool
web = record (pool_named "web") { nodes = ("n1", node_of "n1") ∷ [] }

abbrev removing : ScalingState
removing = record (new_scaling_state "web" "worker_pool" "") {
  scaling_direction = inward;
  eligible_nodes = "10.0.0.1" ∷ "10.0.0.2" ∷ [];
}

verify_scaled_node-Ends_example :
    Ends 3 (verify_scaled_node consul api patience 4 web removing new_world).1
unfolding new_worker_pool new_scaling_state
verify_scaled_node-Ends_example =
    verify_scaled_node-Ends consul api patience 4 0 3 web removing new_world refl refl (omega arith)
      (omega arith) (omega arith)

safety_check_iff_example :
    ((safety_check api patience web removing new_world).1 ≡ some true) ↔ Fits 1 1 1 3 inward
unfolding new_worker_pool
safety_check_iff_example =
    safety_check_iff api patience 1 1 3 web removing group new_world refl refl refl refl
      (omega arith)

terminate_instance_iff_example :
    ((terminate_instance api patience "i-1" "us-east-1" new_world).1 ≡ some false) ↔ (
      ((api.terminate "i-1" "us-east-1" new_world).1 ≡ false)
      × IsTerminated api patience "i-1" "us-east-1" patience.termination new_world)
terminate_instance_iff_example = terminate_instance_iff api patience "i-1" "us-east-1" new_world

abbrev removed : ScalingState
removed = record removing {
  eligible_nodes = "10.0.0.1" ∷ [];
  last_scaling_event = 1000;
  last_updated = 1000;
}

scale_in_first_example : removed.eligible_nodes ≡ "10.0.0.1" ∷ drop_last ("10.0.0.2" ∷ [])
unfolding scale_in drop_last retire detach_and_retire translate_ip_to_id await_activity
    terminate_instance poll_again poll string_eq persist_state new_scaling_state new_worker_pool
scale_in_first_example =
    scale_in_first consul api patience web removing removed false new_world "10.0.0.1" "10.0.0.2" []
      refl refl

abbrev unanswered : NomadDrain World
unanswered = record {
  update_drain = λ node w. (w, false);
  drain_of = λ node w. (w, ok true);
  statuses_of = λ node w. (w, err);
  tick = λ w. w;
}

lost : (drain_node unanswered 360 "n1" new_world).1 ≡ true
unfolding drain_node poll_again poll
lost = refl

drain_node_iff_example : ((drain_node unanswered 360 "n1" new_world).1 ≡ true) ↔ (
    let (w1, refused) = unanswered.update_drain "n1" new_world in
    let (w2, reply) = unanswered.drain_of "n1" w1 in
    (refused ≡ true)
    ⊎ (refused ≡ false) × ((reply ≡ err) ⊎ (reply ≡ ok true) × IsLost unanswered 360 "n1" 360 w2))
drain_node_iff_example = drain_node_iff unanswered 360 "n1" new_world

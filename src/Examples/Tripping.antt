-- ===== src/Examples/Tripping.antt =====
-- The failsafe mode and the scaling of a pool at concrete inputs.
use replicator.Base.{string_eq, nat_eq, true, ◌≡◌, ◌↔◌, refl, some, [], ◌∷◌}
use replicator.Base.Dict.{lookup, insert}
use replicator.Base.Int.{pos, ◌<ℤ◌}
use replicator.Structs.{
  new_scaling_state, Direction, NodeRegistry, new_node_registry, new_worker_pool,
}
use replicator.World.{Consul, FailureMessage, failed}
use replicator.State.{persist_state, read_state}
use replicator.Failsafe.{set_failsafe_mode, failsafe_check, prepare}
use replicator.Scaling.{initial_state, failure_message, worker_pool_scaling}
use replicator.Scaling.Tripped.{worker_pool_scaling-set_failsafe_mode, failsafe_check_unread}
use replicator.Scaling.Kept.{IsUnscaled, worker_pool_scaling_keeps}
use replicator.Examples.Concrete.{
  World, new_world, Bytes, consul, consul-IsFaithful, numbers, capacity_api,
}
use replicator.Examples.Scaling.{machines, jobs, start, web, one_node, stored_pool, one_node-lookup}

abbrev alarm : FailureMessage
alarm = record {
  alert_uid = "uid";
  cluster_identifier = "";
  reason = "";
  resource_id = "web";
  resource_type = "worker_pool";
  state_path = "";
}

worker_pool_scaling-set_failsafe_mode_example :
    let (w1, (set, refused)) = set_failsafe_mode consul [] start true alarm new_world in
    worker_pool_scaling consul [] numbers capacity_api machines "replicator/config" jobs "web"
      one_node w1
    ≡ (
      w1,
      some (record one_node {
        worker_pools =
            insert "web"
              (record stored_pool {
                state = some (record set { scaling_direction = Direction.unset });
              })
              one_node.worker_pools;
      }),
    )
unfolding set_failsafe_mode prepare persist_state initial_state new_scaling_state new_worker_pool
worker_pool_scaling-set_failsafe_mode_example =
    worker_pool_scaling-set_failsafe_mode consul [] numbers capacity_api machines
      "replicator/config" jobs "web" stored_pool one_node start alarm new_world consul-IsFaithful
      one_node-lookup refl refl

-- A store that cannot be read.
abbrev unreadable : Consul World Bytes
unreadable = record consul { kv_get = λ key w. (w, failed) }

failsafe_check_unread_example :
    let (w1, s) = read_state unreadable (initial_state "replicator/config" web) true new_world in
    ((failsafe_check unreadable [] s web.retry_threshold (failure_message web) w1).1.1 ≡ true)
    ↔ (pos 0 <ℤ web.retry_threshold)
failsafe_check_unread_example =
    failsafe_check_unread unreadable [] "replicator/config" web new_world refl

abbrev three_nodes : NodeRegistry
three_nodes = record new_node_registry { worker_pools = ("web", web) ∷ [] }

-- Nothing is sent.
abbrev IsSilent : World → Type 0
IsSilent w = w.sent ≡ []

silent : IsUnscaled consul [] capacity_api machines IsSilent
silent = record {
  stable = record { now = λ w h. h; kv_get = λ key w h. h; kv_put = λ key bytes w h. h; send = tt };
  answered = record {
    node_allocations = λ node w h. h;
    job_allocations = λ job w h. h;
    job_tasks = λ job w h. h;
    node_address = λ node w h. h;
  };
  safety_check = λ pool s w h. h;
}

worker_pool_scaling_keeps_example :
    IsSilent
      (worker_pool_scaling consul [] numbers capacity_api machines "replicator/config" jobs "web"
        three_nodes new_world).0
unfolding lookup string_eq
worker_pool_scaling_keeps_example =
    worker_pool_scaling_keeps consul [] numbers capacity_api machines "replicator/config" IsSilent
      silent jobs "web" web three_nodes new_world refl
      (λ found s off below permitted. (λ way h. h, λ way address node h. (h, λ drained h. h))) refl

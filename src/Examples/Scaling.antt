-- ===== src/Examples/Scaling.antt =====
-- The evaluation of a pool of three nodes, from its stored state to the removal of a node.
use replicator.Base.{
  ℕ, ◌+◌, ◌*◌, ◌/◌, ◌<◌, String, true, false, ◌≡◌, refl, inl, Option, some, List, [], ◌∷◌, arith,
  nat_eq, string_eq, ok, ap,
}
use replicator.Base.Dict.{lookup, insert}
use replicator.Base.Int.{pos, ◌<ℤ◌, ◌+ℤ◌, ◌-ℤ◌, ◌*ℤ◌, wrap, add_int, sub_int, mul_int, div_int}
use replicator.Structs.{
  ScalingState, new_scaling_state, WorkerPool, aws, new_worker_pool, NodeRegistry, ClusterCapacity,
  new_cluster_capacity, no_resources, processor, inward, new_node_registry, NodeAllocation,
}
use replicator.State.{persist_state, read_state, initialize_state}
use replicator.Failsafe.{failsafe_check}
use replicator.Registry.{register, new_scaling_provider}
use replicator.Capacity.{
  calculate_pool_capacity, count_nodes, calculate_pool_consumed, consume_nodes, consumed,
  calculate_usage, calculate_scaling_reserve, reserve_job, check_job_placement,
  most_utilized_resource, max_of,
}
use replicator.Capacity.Limits.{
  evaluated, evaluate_pool_scaling, decide_pool_scaling, decide_within, safety_step,
  cluster_scaling_required, cluster_scaling_safe, scale_in_safe, max_allowed_cluster_utilization,
  allowed,
}
use replicator.Scaling.{
  Machines, permitted, gate, gate_evaluation, gate_direction, gate_provider, gate_cooldown,
  gate_requests, initial_state, check_pool_scaling_threshold, count_request,
  check_cooldown_threshold,
}
use replicator.Scaling.Requests.{after, requests, check_pool_scaling_threshold-after}
use replicator.Scaling.Gates.{IsEvaluated, gate-permitted}
use replicator.Scaling.Room.{gate-room}
use replicator.Examples.Concrete.{
  World, new_world, consul, numbers, capacity_api, node_of, pool_named, state_bytes,
}

abbrev pub machines : Machines World
machines = record {
  safety_check = λ pool s w. (w, some true);
  scale = λ pool s r w. (w, some (s, false));
  drain_node = λ node w. (w, false);
}

abbrev pub web : WorkerPool
web = record (pool_named "web") {
  nodes = ("n1", node_of "n1") ∷ ("n2", node_of "n2") ∷ ("n3", node_of "n3") ∷ [];
  scaling_threshold = pos 1;
}

abbrev share : String → NodeAllocation (Option ℕ)
share id = record {
  node_id = id;
  used_capacity = record {
    memory_mb = pos 200;
    cpu_mhz = pos 100;
    disk_mb = pos 10;
    memory_percent = some 33;
    cpu_percent = some 33;
    disk_percent = some 33;
  };
}

abbrev found : ClusterCapacity (Option ℕ)
found = record {
  node_count = pos 3;
  scaling_metric = record { type = processor; capacity = pos 3000; utilization = pos 300 };
  max_allowed_utilization = pos 1950;
  total_capacity = record (no_resources (Option ℕ) (some 0)) {
    cpu_mhz = pos 3000;
    memory_mb = pos 12000;
    disk_mb = pos 27000;
  };
  used_capacity = record {
    memory_mb = pos 600;
    cpu_mhz = pos 300;
    disk_mb = pos 30;
    memory_percent = some 5;
    cpu_percent = some 10;
    disk_percent = some 0;
  };
  task_allocation = record (no_resources (Option ℕ) (some 0)) {
    cpu_mhz = pos 50;
    memory_mb = pos 60;
    disk_mb = pos 1;
  };
  node_list = "n1" ∷ "n2" ∷ "n3" ∷ [];
  node_allocations = share "n1" ∷ share "n2" ∷ share "n3" ∷ [];
  scaling_direction = inward;
}

abbrev wanted : ScalingState
wanted = record (new_scaling_state "web" "worker_pool" "replicator/config/state/nodes/web") {
  last_updated = 1000;
  scaling_direction = inward;
}

abbrev pub jobs : List String
jobs = "job" ∷ []

evaluates :
    (w : World) → evaluate_pool_scaling numbers capacity_api web jobs w ≡ (w, evaluated found true)
unfolding evaluate_pool_scaling new_cluster_capacity new_worker_pool decide_pool_scaling
    calculate_pool_consumed calculate_scaling_reserve string_eq lookup
    max_allowed_cluster_utilization div_int most_utilized_resource calculate_pool_capacity add_int
    wrap ◌+ℤ◌ decide_within cluster_scaling_required sub_int ◌-ℤ◌ nat_eq mul_int ◌*ℤ◌ allowed
    cluster_scaling_safe safety_step scale_in_safe calculate_usage check_job_placement consume_nodes
    consumed count_nodes max_of reserve_job
evaluates w = refl

abbrev pub start : ScalingState
start = record (new_scaling_state "web" "worker_pool" "replicator/config/state/nodes/web") {
  last_updated = 1000;
}

abbrev stored : World
stored = record new_world { store = ("replicator/config/state/nodes/web", state_bytes start) ∷ [] }

reads : read_state consul (initial_state "replicator/config" web) true new_world ≡ (stored, start)
unfolding read_state initialize_state persist_state initial_state new_scaling_state new_worker_pool
    lookup insert string_eq
reads = refl

evaluated_next :
    (s : ScalingState) (w : World)
    → gate_evaluation consul [] numbers capacity_api machines "replicator/config" web jobs s w
      ≡ gate_direction consul [] numbers capacity_api machines "replicator/config" web found s w
unfolding gate_evaluation
evaluated_next s w =
    rw (evaluates w, gate_evaluation)
      (ap (gate_direction consul [] numbers capacity_api machines "replicator/config" web found s)
        (ap (λ r. r.0) (evaluates w)))

directed :
    (gate_direction consul [] numbers capacity_api machines "replicator/config" web found start
      stored).1
    ≡ permitted wanted found
unfolding gate_direction gate_provider gate_cooldown gate_requests check_cooldown_threshold
    check_pool_scaling_threshold count_request persist_state new_scaling_state new_worker_pool
    add_int wrap ◌+ℤ◌ nat_eq
directed = refl

passes :
    (gate consul [] numbers capacity_api machines "replicator/config" web jobs new_world).1
    ≡ permitted wanted found
unfolding gate failsafe_check new_scaling_state new_worker_pool
passes = rw (reads, evaluated_next start stored) directed

check_pool_scaling_threshold-after_example :
    let pool = record web { scaling_threshold = pos 3 } in
    let r = after consul pool 2 (record start { scaling_direction = inward }) new_world in
    let r' = (check_pool_scaling_threshold consul pool r.1 r.0).1 in
    (r'.1 ≡ true) × (requests inward r'.0 ≡ pos 0)
unfolding new_scaling_state nat_eq
check_pool_scaling_threshold-after_example =
    check_pool_scaling_threshold-after consul (record web { scaling_threshold = pos 3 }) inward
      (record start { scaling_direction = inward }) new_world 3 2 (λ key v w. refl) (inl refl) refl
      refl refl (omega arith) (omega arith)

gate-permitted_example :
    let (w1, s) = read_state consul (initial_state "replicator/config" web) true new_world in
    (s.failsafe_mode ≡ false)
    × (s.failure_count <ℤ web.retry_threshold)
    × IsEvaluated consul [] numbers capacity_api machines "replicator/config" web jobs s w1 found
        wanted
gate-permitted_example =
    gate-permitted consul [] numbers capacity_api machines "replicator/config" web jobs found wanted
      new_world passes

gate-room_example : 300 + 50 + (3000 / 3) * 2 < 3000
unfolding new_worker_pool
gate-room_example =
    gate-room consul [] numbers capacity_api machines "replicator/config" web jobs found wanted
      new_world 300 50 3000 2 1 passes refl (inl refl) refl refl refl refl refl (omega arith)
      (omega arith)

abbrev pub one_node : NodeRegistry
one_node = (register (λ pool. ok 1) (node_of "n1") (pool_named "web") 5 new_node_registry).0

abbrev pub stored_pool : WorkerPool
stored_pool = record (pool_named "web") {
  nodes = ("n1", node_of "n1") ∷ [];
  node_registrations = ("n1", 5) ∷ [];
  scaling_provider = some (aws "us-east-1");
}

pub one_node-lookup : lookup "web" one_node.worker_pools ≡ some stored_pool
unfolding register new_node_registry new_scaling_provider lookup insert string_eq new_worker_pool
one_node-lookup = refl

-- A world whose store says that the pool is in failsafe mode.
abbrev pub tripped : World
tripped = record new_world {
  store =
      ("replicator/config/state/nodes/web", state_bytes (record start { failsafe_mode = true }))
      ∷ [];
}

abbrev pub refused : NodeRegistry
refused = record one_node {
  worker_pools =
      insert "web"
        (record stored_pool {
          state =
              some
                (read_state consul (initial_state "replicator/config" stored_pool) true tripped).1;
        })
        one_node.worker_pools;
}

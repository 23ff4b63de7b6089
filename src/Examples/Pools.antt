-- ===== src/Examples/Pools.antt =====
-- The evaluation of a worker pool at concrete inputs.
use replicator.Base.{
  ℕ, ◌+◌, ◌*◌, ◌/◌, ◌<◌, ◌≡◌, ◌≢◌, refl, inl, Option, some, [], ◌∷◌, arith, nat_eq,
}
use replicator.Base.Int.{pos, wrap, add_int, sub_int, mul_int, div_int, ◌+ℤ◌, ◌-ℤ◌, ◌*ℤ◌}
use replicator.Structs.{
  WorkerPool, new_worker_pool, ClusterCapacity, new_cluster_capacity, processor, disk, inward,
  no_resources,
}
use replicator.Capacity.{most_utilized_resource, max_of}
use replicator.Capacity.Limits.{
  max_allowed_cluster_utilization, allowed, cluster_scaling_required, cluster_scaling_safe,
  decide_pool_scaling, decide_within, safety_step, scale_in_safe, evaluate_pool_scaling, panicked,
}
use replicator.Capacity.Safety.{decide_pool_scaling-room, cluster_scaling_safe_disk}
use replicator.Capacity.Progress.{evaluate_pool_scaling-ne-panicked}
use replicator.Examples.Concrete.{new_world, numbers, capacity_api, node_of, pool_named}

abbrev web : WorkerPool
web = record (pool_named "web") {
  nodes = ("n1", node_of "n1") ∷ ("n2", node_of "n2") ∷ ("n3", node_of "n3") ∷ [];
}

abbrev measured : ClusterCapacity (Option ℕ)
measured = record (new_cluster_capacity (Option ℕ) (some 0)) {
  node_count = pos 3;
  scaling_metric = record { type = processor; capacity = pos 0; utilization = pos 0 };
  max_allowed_utilization = pos 1950;
  total_capacity = record (no_resources (Option ℕ) (some 0)) {
    cpu_mhz = pos 3000;
    memory_mb = pos 12000;
  };
  used_capacity = record (no_resources (Option ℕ) (some 0)) {
    cpu_mhz = pos 100;
    memory_mb = pos 100;
    cpu_percent = some 3;
    memory_percent = some 0;
    disk_percent = some 0;
  };
  task_allocation = record (no_resources (Option ℕ) (some 0)) { cpu_mhz = pos 50 };
  node_allocations =
      record { node_id = "n1"; used_capacity = no_resources (Option ℕ) (some 0) }
      ∷ record { node_id = "n2"; used_capacity = no_resources (Option ℕ) (some 2) }
      ∷ [];
}

abbrev decided : ClusterCapacity (Option ℕ)
decided = record measured {
  scaling_metric = record { type = processor; capacity = pos 3000; utilization = pos 100 };
  scaling_direction = inward;
}

abbrev on_disk : ClusterCapacity (Option ℕ)
on_disk = record decided {
  scaling_metric = record { type = disk; capacity = pos 3000; utilization = pos 100 };
}

decide_pool_scaling-room_example : 100 + 50 + (3000 / 3) * 2 < 3000
unfolding decide_pool_scaling new_cluster_capacity new_worker_pool most_utilized_resource
    decide_within safety_step cluster_scaling_required cluster_scaling_safe scale_in_safe
    max_allowed_cluster_utilization allowed add_int sub_int mul_int div_int wrap ◌+ℤ◌ ◌-ℤ◌ ◌*ℤ◌
    max_of nat_eq
decide_pool_scaling-room_example =
    decide_pool_scaling-room numbers measured decided web 100 50 3000 2 1 refl refl (inl refl) refl
      refl refl refl refl (omega arith) (omega arith)

cluster_scaling_safe_disk_example :
    cluster_scaling_safe numbers (record on_disk { used_capacity = decided.total_capacity }) web
    ≡ cluster_scaling_safe numbers on_disk web
unfolding new_cluster_capacity
cluster_scaling_safe_disk_example =
    cluster_scaling_safe_disk numbers on_disk web decided.total_capacity refl

evaluate_pool_scaling-ne-panicked_example :
    (evaluate_pool_scaling numbers capacity_api web ("job" ∷ []) new_world).1 ≢ panicked
unfolding new_worker_pool
evaluate_pool_scaling-ne-panicked_example =
    evaluate_pool_scaling-ne-panicked numbers capacity_api web ("job" ∷ []) new_world (λ e. cc)
      (omega arith)

-- ===== src/Capacity/Safety.antt =====
-- What a permitted scale-in leaves in the pool, and what the disk metric does to the check.
use mathlib.Core.Option.{some-injective}
use replicator.Base.{
  ℕ, suc, ◌+◌, ◌*◌, ◌/◌, ◌<◌, true, false, ◌≡◌, sym, ap, ◌∙◌, ◌⊎◌, inl, inr, some, arith,
  Option-cases, Bool-cases, Result-cases, Bool, String, List,
}
use replicator.Base.Int.{ℤ, pos, ◌<ℤ◌, sub_ℕ}
use replicator.Floats.{Floats}
use replicator.Structs.{
  ClusterCapacity, new_cluster_capacity, AllocationResources, WorkerPool, disk, memory, processor,
  inward,
}
use replicator.Capacity.{
  NomadCapacity, most_utilized_resource, calculate_pool_capacity, calculate_pool_consumed,
  calculate_scaling_reserve,
}
use replicator.Capacity.Limits.{
  amount, pool_used_capacity, max_allowed_cluster_utilization, cluster_scaling_required,
  cluster_scaling_safe, evaluated, safety_step, decide_within, decide_pool_scaling,
  evaluate_pool_scaling,
}
use replicator.Capacity.Decision.{max_allowed_cluster_utilization_lem}

room_of_below :
    (used total x : ℕ) (u limit : ℤ)
    → u <ℤ limit
    → u ≡ pos used
    → limit ≡ sub_ℕ total x
    → used + x < total
room_of_below used total x u limit below hu hl = ground arith

module _ {F : Type 0} (fl : Floats F) where
  safety_step-evaluated :
      (c c' : ClusterCapacity F) (pool : WorkerPool)
      → safety_step fl c pool ≡ evaluated c' true
      → cluster_scaling_safe fl c' pool ≡ some true
  unfolding safety_step
  safety_step-evaluated c c' pool h = elim (Option-cases (cluster_scaling_safe fl c pool)) [
    | inl e ↦ ground arith
    | inr (safe, e) ↦ ground arith
  ]

  decide_within-safe :
      (m c : ClusterCapacity F) (pool : WorkerPool) (limit : ℤ)
      → decide_within fl m pool limit ≡ evaluated c true
      → cluster_scaling_safe fl c pool ≡ some true
  unfolding decide_within
  decide_within-safe m c pool limit h =
      let r = cluster_scaling_required (record m { max_allowed_utilization = limit }) in
      elim (Bool-cases r.1) [
        | inl required ↦ safety_step-evaluated r.0 c pool (rw required at h)
        | inr other ↦ ground arith
      ]

  -- What `EvaluatePoolScaling` permits passed `ClusterScalingSafe` on the capacity it returns.
  decide_pool_scaling-safe :
      (measured c : ClusterCapacity F) (pool : WorkerPool)
      → decide_pool_scaling fl measured pool ≡ evaluated c true
      → cluster_scaling_safe fl c pool ≡ some true
  unfolding decide_pool_scaling
  decide_pool_scaling-safe measured c pool h =
      let m = most_utilized_resource fl measured in
      elim (Option-cases (max_allowed_cluster_utilization m pool.fault_tolerance false)) [
        | inl e ↦ ground arith
        | inr (limit, e) ↦ decide_within-safe m c pool limit (rw (e, decide_pool_scaling) at h)
      ]

  scale_in_room :
      (c : ClusterCapacity F) (pool : WorkerPool)
      → cluster_scaling_safe fl c pool ≡ some true
      → c.scaling_direction ≡ inward
      → (limit : ℤ) × (max_allowed_cluster_utilization c pool.fault_tolerance true ≡ some limit)
        × (pool_used_capacity c.scaling_metric.type c.used_capacity <ℤ limit)
  unfolding cluster_scaling_safe
  scale_in_room c pool h inw =
      elim (Option-cases (max_allowed_cluster_utilization c pool.fault_tolerance true)) [
        | inl e ↦ absurd (ground arith)
        | inr (limit, e) ↦ (limit, e, ground arith)
      ]

  used_of_metric :
      (c : ClusterCapacity F)
      → (c.scaling_metric.type ≡ processor) ⊎ (c.scaling_metric.type ≡ memory)
      → pool_used_capacity c.scaling_metric.type c.used_capacity
        ≡ amount c.scaling_metric.type c.used_capacity
  used_of_metric c metric = ground arith

  -- A scale-in that `EvaluatePoolScaling` permits for the sake of CPU or memory leaves room: what is
  -- used and the reserve, with as many average nodes as the fault tolerance and one more, are less
  -- than the total capacity. The amounts are not negative and 64 bits hold them.
  pub decide_pool_scaling-room :
      (measured c : ClusterCapacity F) (pool : WorkerPool) (used alloc total n tolerance : ℕ)
      → decide_pool_scaling fl measured pool ≡ evaluated c true
      → c.scaling_direction ≡ inward
      → (c.scaling_metric.type ≡ processor) ⊎ (c.scaling_metric.type ≡ memory)
      → amount c.scaling_metric.type c.used_capacity ≡ pos used
      → amount c.scaling_metric.type c.task_allocation ≡ pos alloc
      → amount c.scaling_metric.type c.total_capacity ≡ pos total
      → c.node_count ≡ pos (suc n)
      → pool.fault_tolerance ≡ pos tolerance
      → total < 9223372036854775808
      → alloc + (total / suc n) * suc tolerance < 9223372036854775808
      → used + alloc + (total / suc n) * suc tolerance < total
  decide_pool_scaling-room measured c pool used alloc total n tolerance h inw metric hu ha ht hn hf
        b b' =
      let (limit, e, below) =
        scale_in_room c pool (decide_pool_scaling-safe measured c pool h) inw in
      let exact =
        max_allowed_cluster_utilization_lem c total alloc n tolerance true ht ha hn b b' in
      let room =
        room_of_below used total (alloc + (total / suc n) * suc tolerance) _ limit below
          (used_of_metric c metric ∙ hu)
          (some-injective _ _
            (sym e ∙ ap (λ t. max_allowed_cluster_utilization c t true) hf ∙ exact)) in
      omega arith

  -- For the sake of disk, the amount of disk that is used has no part in `ClusterScalingSafe`, and
  -- neither have the used CPU and memory: any two usages are judged alike.
  pub cluster_scaling_safe_disk :
      (c : ClusterCapacity F) (pool : WorkerPool) (used : AllocationResources F)
      → c.scaling_metric.type ≡ disk
      → cluster_scaling_safe fl (record c { used_capacity = used }) pool
        ≡ cluster_scaling_safe fl c pool
  unfolding cluster_scaling_safe max_allowed_cluster_utilization
  cluster_scaling_safe_disk c pool used h = ground arith

  -- What `EvaluatePoolScaling` returns was decided on the capacity that it measured.
  pub evaluate_pool_scaling-decides :
      {W : Type 0} (n : NomadCapacity W) (pool : WorkerPool) (jobs : List String) (w : W)
      (c : ClusterCapacity F) (scale : Bool)
      → (evaluate_pool_scaling fl n pool jobs w).1 ≡ evaluated c scale
      → (measured : ClusterCapacity F) × (decide_pool_scaling fl measured pool ≡ evaluated c scale)
  unfolding evaluate_pool_scaling
  evaluate_pool_scaling-decides n pool jobs w c scale h =
      let total = calculate_pool_capacity fl (new_cluster_capacity F fl.zero) pool in
      let used = calculate_pool_consumed fl n total pool w in
      elim (Result-cases used.1) [
        | inl e ↦ absurd (ground arith)
        | inr (u, e) ↦
            let reserved = calculate_scaling_reserve fl n pool jobs u used.0 in
            elim (Result-cases reserved.1) [
              | inl e' ↦ absurd (ground arith)
              | inr (measured, e') ↦ (measured, rw (e, e', evaluate_pool_scaling) at h)
            ]
      ]

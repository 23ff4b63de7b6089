-- ===== src/Capacity/Limits.antt =====
-- The decisions of client/cluster_scaling.go and client/nomad.go that rest on the measured capacity.
use replicator.Base.{
  String, Bool, true, false, not, Option, none, some, List, [], ◌∷◌, if◌then◌else◌, ◌==◌, ◌&&◌,
  ◌||◌, string_eq, ok, err, M,
}
use replicator.Base.Int.{ℤ, pos, ltz, lez, sub_int, mul_int, div_int}
use replicator.Floats.{Floats}
use replicator.Structs.{
  WorkerPool, AllocationResources, NodeAllocation, ClusterCapacity, Metric, none_used, disk, memory,
  processor, Direction, out, inward, none_wanted, new_cluster_capacity,
}
use replicator.Capacity.{
  NomadCapacity, calculate_pool_capacity, calculate_pool_consumed, calculate_scaling_reserve,
  most_utilized_resource,
}

abbrev pub is_none_used : Metric → Bool
is_none_used none_used = true
is_none_used _ = false

abbrev pub is_none_wanted : Direction → Bool
is_none_wanted none_wanted = true
is_none_wanted _ = false

-- The two tests of `clusterScalingRequired` that set the direction.
required_direction : ℤ → ℤ → Metric → Direction → Direction
required_direction utilization limit metric old =
    let first = if ltz utilization limit || is_none_used metric then inward else old in
    if lez limit utilization && not (is_none_used metric) then out else first

-- The arithmetic of `MaxAllowedClusterUtilization`.
unfoldable pub allowed : ℤ → ℤ → ℤ → ℤ → Bool → Option ℤ
allowed capacity_total alloc_total node_count fault_tolerance scale_in =
    elim (div_int capacity_total node_count) [
      | none ↦ none
      | some node_avg ↦
          let left = if scale_in then sub_int capacity_total node_avg else capacity_total in
          some (sub_int (sub_int left alloc_total) (mul_int node_avg fault_tolerance))
    ]

module _ {F : Type 0} where
  -- The amount of the resource that the metric stands for; CPU in the `default` case.
  abbrev pub amount : Metric → AllocationResources F → ℤ
  amount memory r = r.memory_mb
  amount _ r = r.cpu_mhz

  -- `MaxAllowedClusterUtilization`; `none` is the panic of a division by zero.
  unfoldable pub max_allowed_cluster_utilization : ClusterCapacity F → ℤ → Bool → Option ℤ
  unfolding allowed
  max_allowed_cluster_utilization c fault_tolerance scale_in =
      allowed (amount c.scaling_metric.type c.total_capacity)
        (amount c.scaling_metric.type c.task_allocation) c.node_count fault_tolerance scale_in

  -- `clusterScalingRequired`
  unfoldable pub cluster_scaling_required : ClusterCapacity F → ClusterCapacity F × Bool
  unfolding required_direction
  cluster_scaling_required c =
      let metric = c.scaling_metric.type in
      let utilization = amount metric c.used_capacity in
      let direction =
        required_direction utilization c.max_allowed_utilization metric c.scaling_direction in
      (
        record c {
          scaling_metric = record c.scaling_metric {
            capacity = amount metric c.total_capacity;
            utilization = utilization;
          };
          scaling_direction = direction;
        },
        not (is_none_wanted direction),
      )

  -- `poolUsedCapacity` of `ClusterScalingSafe`: 0 for the metrics that its `switch` does not name.
  abbrev pub pool_used_capacity : Metric → AllocationResources F → ℤ
  pool_used_capacity processor r = r.cpu_mhz
  pool_used_capacity memory r = r.memory_mb
  pool_used_capacity _ r = pos 0

module _ {F : Type 0} (fl : Floats F) where
  unfoldable pub scale_in_safe : ℤ → ℤ → Bool
  scale_in_safe used limit = not (
      lez limit used
      || (fl.lt fl.ninety (fl.percent_of used limit) || fl.eq fl.ninety (fl.percent_of used limit)))

  -- `ClusterScalingSafe`; `none` is a panic.
  unfoldable pub cluster_scaling_safe : ClusterCapacity F → WorkerPool → Option Bool
  unfolding scale_in_safe
  cluster_scaling_safe c pool = elim c.scaling_direction [
    | inward ↦ elim (max_allowed_cluster_utilization c pool.fault_tolerance true) [
      | none ↦ none
      | some limit ↦
          some (scale_in_safe (pool_used_capacity c.scaling_metric.type c.used_capacity) limit)
    ]
    | _ ↦ some true
  ]

  -- The answers of `EvaluatePoolScaling`.
  pub data Evaluation : Type 0 where
    panicked failed : Evaluation
    evaluated : ClusterCapacity F → Bool → Evaluation

  unfoldable pub safety_step : ClusterCapacity F → WorkerPool → Evaluation
  unfolding cluster_scaling_safe
  safety_step c pool = elim (cluster_scaling_safe c pool) [
    | none ↦ panicked
    | some safe ↦ evaluated c safe
  ]

  unfoldable pub decide_within : ClusterCapacity F → WorkerPool → ℤ → Evaluation
  decide_within c pool limit =
      let (c', required) =
        cluster_scaling_required (record c { max_allowed_utilization = limit }) in
      if required then safety_step c' pool else evaluated c' false

  -- `EvaluatePoolScaling`, once the capacity has been measured.
  unfoldable pub decide_pool_scaling : ClusterCapacity F → WorkerPool → Evaluation
  decide_pool_scaling measured pool =
      let c = most_utilized_resource fl measured in
      elim (max_allowed_cluster_utilization c pool.fault_tolerance false) [
        | none ↦ panicked
        | some limit ↦ decide_within c pool limit
      ]

  -- `EvaluatePoolScaling`, over the names of the jobs with a policy.
  unfoldable pub evaluate_pool_scaling :
      {W : Type 0} → NomadCapacity W → WorkerPool → List String → M W Evaluation
  unfolding decide_pool_scaling
  evaluate_pool_scaling n pool jobs w =
      let total = calculate_pool_capacity fl (new_cluster_capacity F fl.zero) pool in
      let (w1, reply) = calculate_pool_consumed fl n total pool w in
      elim reply [
        | err ↦ (w1, failed)
        | ok used ↦
            let (w2, reply') = calculate_scaling_reserve fl n pool jobs used w1 in
            elim reply' [
              | err ↦ (w2, failed)
              | ok reserved ↦ (w2, decide_pool_scaling reserved pool)
            ]
      ]

  -- One round of the loop of `LeastAllocatedNode`, over the lowest share and the node so far.
  abbrev pub share_of : Metric → AllocationResources F → Option F
  share_of processor r = some r.cpu_percent
  share_of memory r = some r.memory_percent
  share_of disk r = some r.disk_percent
  share_of _ r = none

  unfoldable pub consider : Metric → NodeAllocation F → F × String → F × String
  consider none_used node (lowest, id) = (lowest, node.node_id)
  consider metric node (lowest, id) = elim (share_of metric node.used_capacity) [
    | none ↦ (lowest, id)
    | some share ↦
        if fl.eq lowest fl.zero || fl.lt share lowest then (share, node.node_id) else (lowest, id)
  ]

  unfoldable pub least_loop : Metric → String → List (NodeAllocation F) → F × String → F × String
  unfolding consider
  least_loop metric protected_node [] best = best
  least_loop metric protected_node (node ∷ nodes) best =
      least_loop metric protected_node nodes
        (if node.node_id == protected_node then best else consider metric node best)

  -- `LeastAllocatedNode`: the id and the address of the node.
  unfoldable pub least_allocated_node :
      {W : Type 0} → NomadCapacity W → ClusterCapacity F → String → M W (String × String)
  unfolding least_loop
  least_allocated_node n c protected_node w =
      let id =
        (least_loop c.scaling_metric.type protected_node c.node_allocations (fl.zero, "")).1 in
      let (w', reply) = n.node_address id w in
      (w', (id, elim reply [ err ↦ "" | ok address ↦ address ]))

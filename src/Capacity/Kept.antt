-- ===== src/Capacity/Kept.antt =====
-- What the evaluation of a pool leaves of the outside world.
use replicator.Base.{String, Bool, true, false, List, [], ◌∷◌, Result-cases, inl, inr}
use replicator.Base.Dict.{keys}
use replicator.Floats.{Floats}
use replicator.Structs.{WorkerPool, ClusterCapacity, new_cluster_capacity}
use replicator.Capacity.{
  NomadCapacity, consume_nodes, calculate_pool_consumed, calculate_pool_capacity,
  check_job_placement, reserve_job, calculate_scaling_reserve,
}
use replicator.Capacity.Limits.{evaluate_pool_scaling, least_allocated_node}

-- A property of the world that Nomad's answers about nodes and jobs keep.
pub record IsAnswered {W : Type 0} (n : NomadCapacity W) (P : W → Type 0) : Type 0 where
  pub node_allocations : (node : String) (w : W) → P w → P (n.node_allocations node w).0
  pub job_allocations : (job : String) (w : W) → P w → P (n.job_allocations job w).0
  pub job_tasks : (job : String) (w : W) → P w → P (n.job_tasks job w).0
  pub node_address : (node : String) (w : W) → P w → P (n.node_address node w).0

module _ {W F : Type 0} (fl : Floats F) (n : NomadCapacity W) (P : W → Type 0)
    (answered : IsAnswered n P) where
  consume_nodes_keeps :
      (nodes : List String) (c : ClusterCapacity F) (w : W)
      → P w
      → P (consume_nodes fl n nodes c w).0
  unfolding consume_nodes
  consume_nodes_keeps [] c w h = h
  consume_nodes_keeps (node ∷ nodes) c w h = elim (Result-cases (n.node_allocations node w).1) [
    | inl e ↦ rw (e, consume_nodes) (answered.node_allocations node w h)
    | inr (allocations, e) ↦
        rw (e, consume_nodes) (consume_nodes_keeps nodes _ _ (answered.node_allocations node w h))
  ]

  reserve_job_keeps :
      (c : ClusterCapacity F) (job : String) (here : Bool) (w : W)
      → P w
      → P (reserve_job fl n c job here w).0
  unfolding reserve_job
  reserve_job_keeps c job false w h = h
  reserve_job_keeps c job true w h = answered.job_tasks job w h

  calculate_scaling_reserve_keeps :
      (pool : WorkerPool) (jobs : List String) (c : ClusterCapacity F) (w : W)
      → P w
      → P (calculate_scaling_reserve fl n pool jobs c w).0
  unfolding calculate_scaling_reserve check_job_placement
  calculate_scaling_reserve_keeps pool [] c w h = h
  calculate_scaling_reserve_keeps pool (job ∷ jobs) c w h =
      let (w1, here) = check_job_placement n job pool w in
      let reserved = reserve_job fl n c job here w1 in
      let reserved_h = reserve_job_keeps c job here w1 (answered.job_allocations job w h) in
      elim (Result-cases reserved.1) [
        | inl e ↦ rw (e, calculate_scaling_reserve) reserved_h
        | inr (c', e) ↦
            rw (e, calculate_scaling_reserve)
              (calculate_scaling_reserve_keeps pool jobs c' reserved.0 reserved_h)
      ]

  pub evaluate_pool_scaling_keeps :
      (pool : WorkerPool) (jobs : List String) (w : W)
      → P w
      → P (evaluate_pool_scaling fl n pool jobs w).0
  unfolding evaluate_pool_scaling calculate_pool_consumed
  evaluate_pool_scaling_keeps pool jobs w h =
      let total = calculate_pool_capacity fl (new_cluster_capacity F fl.zero) pool in
      let used = calculate_pool_consumed fl n total pool w in
      let used_h = consume_nodes_keeps (keys pool.nodes) total w h in
      elim (Result-cases used.1) [
        | inl e ↦ rw (e, evaluate_pool_scaling) used_h
        | inr (c, e) ↦
            let reserved = calculate_scaling_reserve fl n pool jobs c used.0 in
            let reserved_h = calculate_scaling_reserve_keeps pool jobs c used.0 used_h in
            elim (Result-cases reserved.1) [
              | inl e' ↦ rw (e, e', evaluate_pool_scaling) reserved_h
              | inr (c', e') ↦ rw (e, e', evaluate_pool_scaling) reserved_h
            ]
      ]

  pub least_allocated_node_keeps :
      (c : ClusterCapacity F) (protected_node : String) (w : W)
      → P w
      → P (least_allocated_node fl n c protected_node w).0
  unfolding least_allocated_node
  least_allocated_node_keeps c protected_node w h = answered.node_address _ w h

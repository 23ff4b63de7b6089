-- ===== src/Capacity/Decision.antt =====
-- Which direction the program wants a pool to be scaled in, and the limit that decides it.
use replicator.Base.{
  ℕ, suc, ◌+◌, ◌*◌, ◌/◌, ◌<◌, Bool, true, false, ◌≡◌, ap, ◌∙◌, some, arith, if◌then◌else◌, ◌||◌,
}
use replicator.Base.Int.{pos, sub_ℕ, ltz, sub_int, mul_int}
use replicator.Base.Int.Exact.{mul_int-pos, div_int-pos, sub_int-pos, sub_int-sub_ℕ}
use replicator.Structs.{ClusterCapacity, out, inward}
use replicator.Capacity.Limits.{
  amount, is_none_used, allowed, max_allowed_cluster_utilization, cluster_scaling_required,
}

module _ {F : Type 0} where
  -- `clusterScalingRequired` always asks for a scaling operation, whatever the capacity: inward if
  -- the utilization is below the limit or no resource is used at all, and outward otherwise.
  cluster_scaling_required_lem :
      (c : ClusterCapacity F)
      → let metric = c.scaling_metric.type in
        let used = amount metric c.used_capacity in
        ((cluster_scaling_required c).1 ≡ true)
        × ((cluster_scaling_required c).0.scaling_direction
            ≡ (if ltz used c.max_allowed_utilization || is_none_used metric then inward else out))
  unfolding cluster_scaling_required
  cluster_scaling_required_lem c = ground arith

-- The number of nodes whose average capacity is kept free.
abbrev pub kept_free : Bool → ℕ → ℕ
kept_free scale_in fault_tolerance = if scale_in then suc fault_tolerance else fault_tolerance

allowed_step :
    (total alloc avg tolerance : ℕ) (scale_in : Bool)
    → total < 9223372036854775808
    → alloc + avg * suc tolerance < 9223372036854775808
    → sub_int
        (sub_int (if scale_in then sub_int (pos total) (pos avg) else pos total) (pos alloc))
        (mul_int (pos avg) (pos tolerance))
      ≡ sub_ℕ total (alloc + avg * kept_free scale_in tolerance)
allowed_step total alloc avg tolerance true h k =
    rw
      (
        mul_int-pos avg tolerance (omega arith),
        sub_int-pos total avg h (omega arith),
        sub_int-sub_ℕ total avg alloc h (omega arith),
        sub_int-sub_ℕ total (avg + alloc) (avg * tolerance) h (omega arith),
      )
      (ap (sub_ℕ total) (omega arith))
allowed_step total alloc avg tolerance false h k =
    ap (λ m. sub_int (sub_int (pos total) (pos alloc)) m) (mul_int-pos avg tolerance (omega arith))
    ∙ ap (λ m. sub_int m (pos (avg * tolerance))) (sub_int-pos total alloc h (omega arith))
    ∙ sub_int-sub_ℕ total alloc (avg * tolerance) h (omega arith)

module _ {F : Type 0} where
  -- Where the amounts are not negative and 64 bits hold them, the limit is the total capacity less
  -- the reserve and less as many average nodes as the fault tolerance, one more when the removal of
  -- a node is simulated. It may be negative. The average is the total divided by the node count.
  pub max_allowed_cluster_utilization_lem :
      (c : ClusterCapacity F) (total alloc n tolerance : ℕ) (scale_in : Bool)
      → amount c.scaling_metric.type c.total_capacity ≡ pos total
      → amount c.scaling_metric.type c.task_allocation ≡ pos alloc
      → c.node_count ≡ pos (suc n)
      → total < 9223372036854775808
      → alloc + (total / suc n) * suc tolerance < 9223372036854775808
      → max_allowed_cluster_utilization c (pos tolerance) scale_in
        ≡ some (sub_ℕ total (alloc + (total / suc n) * kept_free scale_in tolerance))
  unfolding max_allowed_cluster_utilization
  max_allowed_cluster_utilization_lem c total alloc n tolerance scale_in ht ha hn h k =
      simp (ht, ha, hn)
        (rw (div_int-pos total n h, allowed)
          (ap some (allowed_step total alloc (total / suc n) tolerance scale_in h k)))

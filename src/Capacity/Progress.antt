-- ===== src/Capacity/Progress.antt =====
-- A pool with a node is evaluated without a panic.
use replicator.Base.{
  ℕ, suc, ◌<◌, String, Bool, true, false, ◌≡◌, ◌≢◌, refl, ap, ◌∙◌, inl, inr, some, List, [], ◌∷◌,
  arith, length, Result, ok, err, Bool-cases, Result-cases,
}
use replicator.Base.Dict.{Dict, values, keys}
use replicator.Base.Int.{ℤ, pos, div_int}
use replicator.Floats.{Floats}
use replicator.Structs.{WorkerPool, ClusterCapacity, new_cluster_capacity}
use replicator.Capacity.{
  NomadCapacity, calculate_pool_capacity, consume_nodes, calculate_usage, calculate_pool_consumed,
  check_job_placement, reserve_job, calculate_scaling_reserve, most_utilized_resource,
}
use replicator.Capacity.Limits.{
  allowed, max_allowed_cluster_utilization, cluster_scaling_required, cluster_scaling_safe,
  safety_step, decide_within, decide_pool_scaling, panicked, evaluate_pool_scaling,
}
use replicator.Capacity.Totals.{count_nodes-node_count}

length-values : {V : Type 0} (d : Dict String V) → d ≢ [] → (n : ℕ) × (length (values d) ≡ suc n)
length-values [] h = absurd (h refl)
length-values ((k, v) ∷ d) h = (length (values d), refl)

module _ {F : Type 0} (fl : Floats F) where
  -- A positive node count.
  abbrev IsCounted : ClusterCapacity F → Type 0
  IsCounted c = (n : ℕ) × (c.node_count ≡ pos (suc n))

  abbrev Counted : Result (ClusterCapacity F) → Type 0
  Counted err = Unit
  Counted (ok c) = IsCounted c

  Counted-ok :
      (r : Result (ClusterCapacity F)) (c : ClusterCapacity F) → r ≡ ok c → Counted r → IsCounted c
  Counted-ok r c e h = rw e at h

  measured-IsCounted :
      (pool : WorkerPool)
      → pool.nodes ≢ []
      → length (values pool.nodes) < 9223372036854775808
      → IsCounted (calculate_pool_capacity fl (new_cluster_capacity F fl.zero) pool)
  unfolding calculate_pool_capacity new_cluster_capacity
  measured-IsCounted pool populated few =
      let (n, e) = length-values pool.nodes populated in
      (
        n,
        count_nodes-node_count fl (new_cluster_capacity F fl.zero) (values pool.nodes) 0 refl
              (omega arith)
            ∙ ap pos (omega (arith, e)),
      )

  allowed-some :
      (a b t : ℤ) (n : ℕ) (scale_in : Bool)
      → (limit : ℤ) × (allowed a b (pos (suc n)) t scale_in ≡ some limit)
  unfolding allowed div_int
  allowed-some a b t n scale_in = (_, refl)

  max_allowed-some :
      (c : ClusterCapacity F) (t : ℤ) (scale_in : Bool)
      → IsCounted c
      → (limit : ℤ) × (max_allowed_cluster_utilization c t scale_in ≡ some limit)
  unfolding max_allowed_cluster_utilization
  max_allowed-some c t scale_in (n, h) = simp h (allowed-some _ _ t n scale_in)

  safety_step-ne-panicked :
      (c : ClusterCapacity F) (pool : WorkerPool) → IsCounted c → safety_step fl c pool ≢ panicked
  unfolding safety_step cluster_scaling_safe
  safety_step-ne-panicked c pool h =
      let (limit, e) = max_allowed-some c pool.fault_tolerance true h in ground arith

  decide_within-ne-panicked :
      (c : ClusterCapacity F) (pool : WorkerPool) (limit : ℤ)
      → IsCounted c
      → decide_within fl c pool limit ≢ panicked
  unfolding decide_within cluster_scaling_required
  decide_within-ne-panicked c pool limit h =
      let r = cluster_scaling_required (record c { max_allowed_utilization = limit }) in
      elim (Bool-cases r.1) [
        | inl required ↦ rw required (safety_step-ne-panicked r.0 pool h)
        | inr other ↦ rw other (λ e. cc)
      ]

  decide_pool_scaling-ne-panicked :
      (c : ClusterCapacity F) (pool : WorkerPool)
      → IsCounted c
      → decide_pool_scaling fl c pool ≢ panicked
  unfolding decide_pool_scaling most_utilized_resource
  decide_pool_scaling-ne-panicked c pool h =
      let m = most_utilized_resource fl c in
      let (limit, e) = max_allowed-some m pool.fault_tolerance false h in
      rw (e, decide_pool_scaling) (decide_within-ne-panicked m pool limit h)

  module _ {W : Type 0} (n : NomadCapacity W) where
    consume_nodes-Counted :
        (nodes : List String) (c : ClusterCapacity F) (w : W)
        → IsCounted c
        → Counted (consume_nodes fl n nodes c w).1
    unfolding consume_nodes
    consume_nodes-Counted [] c w h = h
    consume_nodes-Counted (node ∷ nodes) c w h = elim (Result-cases (n.node_allocations node w).1) [
      | inl e ↦ rw (e, consume_nodes) tt
      | inr (allocations, e) ↦
          rw (e, consume_nodes) (consume_nodes-Counted nodes _ (n.node_allocations node w).0 h)
    ]

    calculate_pool_consumed-Counted :
        (c : ClusterCapacity F) (pool : WorkerPool) (w : W)
        → IsCounted c
        → Counted (calculate_pool_consumed fl n c pool w).1
    unfolding calculate_pool_consumed calculate_usage
    calculate_pool_consumed-Counted c pool w h =
        go (consume_nodes fl n (keys pool.nodes) c w).1
          (consume_nodes-Counted (keys pool.nodes) c w h)
      where
        go :
            (r : Result (ClusterCapacity F))
            → Counted r
            → Counted (elim r [ err ↦ err | ok c' ↦ ok (calculate_usage fl c') ])
        go err h = tt
        go (ok c') h = h

    reserve_job-Counted :
        (c : ClusterCapacity F) (job : String) (here : Bool) (w : W)
        → IsCounted c
        → Counted (reserve_job fl n c job here w).1
    unfolding reserve_job
    reserve_job-Counted c job false w h = h
    reserve_job-Counted c job true w h = elim (Result-cases (n.job_tasks job w).1) [
      | inl e ↦ rw e tt
      | inr (groups, e) ↦ rw e h
    ]

    calculate_scaling_reserve-Counted :
        (pool : WorkerPool) (jobs : List String) (c : ClusterCapacity F) (w : W)
        → IsCounted c
        → Counted (calculate_scaling_reserve fl n pool jobs c w).1
    unfolding calculate_scaling_reserve
    calculate_scaling_reserve-Counted pool [] c w h = h
    calculate_scaling_reserve-Counted pool (job ∷ jobs) c w h =
        let (w', here) = check_job_placement n job pool w in
        let r = reserve_job fl n c job here w' in
        elim (Result-cases r.1) [
          | inl e ↦ rw (e, calculate_scaling_reserve) tt
          | inr (c', e) ↦
              rw (e, calculate_scaling_reserve)
                (calculate_scaling_reserve-Counted pool jobs c' r.0
                  (Counted-ok r.1 c' e (reserve_job-Counted c job here w' h)))
        ]

    -- `EvaluatePoolScaling` does not panic on a pool that has a node: it returns an error of Nomad's
    -- API or a decision. The pool has fewer nodes than 64 bits can count.
    pub evaluate_pool_scaling-ne-panicked :
        (pool : WorkerPool) (jobs : List String) (w : W)
        → pool.nodes ≢ []
        → length (values pool.nodes) < 9223372036854775808
        → (evaluate_pool_scaling fl n pool jobs w).1 ≢ panicked
    unfolding evaluate_pool_scaling
    evaluate_pool_scaling-ne-panicked pool jobs w populated few =
        let total = calculate_pool_capacity fl (new_cluster_capacity F fl.zero) pool in
        let used = calculate_pool_consumed fl n total pool w in
        elim (Result-cases used.1) [
          | inl e ↦ rw (e, evaluate_pool_scaling) (λ e. cc)
          | inr (c, e) ↦
              let reserved = calculate_scaling_reserve fl n pool jobs c used.0 in
              elim (Result-cases reserved.1) [
                | inl e' ↦ rw (e, e', evaluate_pool_scaling) (λ e. cc)
                | inr (c', e') ↦
                    rw (e, e', evaluate_pool_scaling)
                      (decide_pool_scaling-ne-panicked c' pool (
                        Counted-ok reserved.1 c' e' (
                          calculate_scaling_reserve-Counted pool jobs c used.0 (
                            Counted-ok used.1 c e (
                              calculate_pool_consumed-Counted total pool w
                                (measured-IsCounted pool populated few))))))
              ]
        ]

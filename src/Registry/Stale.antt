-- ===== src/Registry/Stale.antt =====
-- What `Register` does to the members of the pools, and a node whose configuration comes to name
-- another pool.
use replicator.Base.{
  ℕ, String, true, false, ◌≡◌, ◌≢◌, ap, ◌∙◌, ◌⊎◌, none, some, arith, inl, inr, string_eq, ◌==◌,
  ◌||◌, not, Result, Option-cases, Bool-cases, Result-cases,
}
use replicator.Base.Dict.{lookup, insert, lookup-insert}
use replicator.Structs.{Node, NodeRegistry, WorkerPool, Time}
use replicator.Registry.{
  node_status_ready, new_scaling_provider, refresh, add_node, register_existing, register_new,
  register_pool, register, deregister,
}
use replicator.Registry.Invariant.{
  holds, IsValid, holds_in-insert, is_some-insert, refresh_keeps, register_existing-insert,
  register-IsValid,
}
use replicator.Registry.Removal.{deregister-IsValid}

module _ (hash : WorkerPool → Result ℕ) (node : Node) (pool : WorkerPool) (now : Time) where
  -- `Register` leaves the pools alone or stores one under the name in the configuration.
  register-insert :
      (r : NodeRegistry)
      → ((register hash node pool now r).0.worker_pools ≡ r.worker_pools)
        ⊎ ((q : WorkerPool) × ((register hash node pool now r).0.worker_pools
              ≡ insert pool.name q r.worker_pools))
  unfolding register register_new
  register-insert r = elim (Bool-cases (not (node.status == node_status_ready) || node.drain)) [
    | inl refused ↦ inl (rw refused)
    | inr accepted ↦ elim (Option-cases (lookup pool.name r.worker_pools)) [
      | inr (existing, e) ↦
          let (q, stored, _, _) = register_existing-insert hash node pool now existing r in
          inr (q, rw (accepted, e, register_pool) stored)
      | inl e ↦ elim (Result-cases (new_scaling_provider pool)) [
        | inl e' ↦ inl (rw (accepted, e, register_pool, e', register_new))
        | inr (provider, e') ↦ inr (
          record (add_node node now pool) { scaling_provider = some provider },
          rw (accepted, e, register_pool, e', register_new),
        )
      ]
    ]
  ]

  register_existing-holds :
      (existing : WorkerPool) (r : NodeRegistry)
      → pool.scaling_enabled ≡ true
      → holds (register_existing hash node pool now existing r) pool.name node.id ≡ true
  unfolding register_existing
  register_existing-holds existing r on =
      let p = refresh hash existing pool in
      ground (
        arith,
        refresh_keeps hash existing pool,
        holds_in-insert pool.name p r.worker_pools pool.name node.id,
        holds_in-insert pool.name (add_node node now p) r.worker_pools pool.name node.id,
        is_some-insert node.id node.id node p.nodes,
      )

  register_new-holds :
      (r : NodeRegistry)
      → (register_new hash node pool now r).1 ≡ false
      → holds (register_new hash node pool now r).0 pool.name node.id ≡ true
  unfolding register_new
  register_new-holds r accepted = elim (Result-cases (new_scaling_provider pool)) [
    | inl e ↦ ground arith
    | inr (provider, e) ↦
        let q : WorkerPool = record (add_node node now pool) { scaling_provider = some provider } in
        rw (e, register_new)
          (holds_in-insert pool.name q r.worker_pools pool.name node.id
            ∙ ground (arith, is_some-insert node.id node.id node pool.nodes))
  ]

  -- After `Register` without an error of a node whose configuration enables scaling, the pool that
  -- the configuration names holds the node. Whatever it returns, the other pools hold what they held.
  pub holds-register :
      (r : NodeRegistry)
      → (pool.scaling_enabled ≡ true
          → (register hash node pool now r).1 ≡ false
          → holds (register hash node pool now r).0 pool.name node.id ≡ true)
        × ((k n : String)
            → k ≢ pool.name
            → holds (register hash node pool now r).0 k n ≡ holds r k n)
  unfolding register
  holds-register r = (held, others)
    where
      held :
          pool.scaling_enabled ≡ true
          → (register hash node pool now r).1 ≡ false
          → holds (register hash node pool now r).0 pool.name node.id ≡ true
      held on fine = elim (Bool-cases (not (node.status == node_status_ready) || node.drain)) [
        | inl refused ↦ ground arith
        | inr accepted ↦ elim (Option-cases (lookup pool.name r.worker_pools)) [
          | inr (p, e) ↦ rw (accepted, e, register_pool) (register_existing-holds p r on)
          | inl e ↦
              rw (accepted, e, register_pool)
                (register_new-holds r (rw (accepted, e, register_pool) at fine))
        ]
      ]

      others :
          (k n : String) → k ≢ pool.name → holds (register hash node pool now r).0 k n ≡ holds r k n
      others k n other = elim (register-insert r) [
        | inl e ↦ rw e
        | inr (q, e) ↦ rw e (ground (arith, holds_in-insert pool.name q r.worker_pools k n))
      ]

  registered-existing :
      (existing : WorkerPool) (r : NodeRegistry)
      → pool.scaling_enabled ≡ true
      → lookup pool.name r.worker_pools ≡ some existing
      → holds r pool.name node.id ≡ false
      → lookup node.id (register_existing hash node pool now existing r).registered_nodes
        ≡ some pool.name
  unfolding register_existing
  registered-existing existing r on here fresh =
      ground (arith, lookup-insert node.id node.id pool.name r.registered_nodes)

  registered-new :
      (r : NodeRegistry)
      → (register_new hash node pool now r).1 ≡ false
      → lookup node.id (register_new hash node pool now r).0.registered_nodes ≡ some pool.name
  unfolding register_new
  registered-new r fine = elim (Result-cases (new_scaling_provider pool)) [
    | inl e ↦ ground arith
    | inr (provider, e) ↦
        rw (e, register_new)
          (ground (arith, lookup-insert node.id node.id pool.name r.registered_nodes))
  ]

  registered-register :
      (r : NodeRegistry)
      → pool.scaling_enabled ≡ true
      → (register hash node pool now r).1 ≡ false
      → holds r pool.name node.id ≡ false
      → lookup node.id (register hash node pool now r).0.registered_nodes ≡ some pool.name
  unfolding register
  registered-register r on fine fresh =
      elim (Bool-cases (not (node.status == node_status_ready) || node.drain)) [
        | inl refused ↦ ground arith
        | inr accepted ↦ elim (Option-cases (lookup pool.name r.worker_pools)) [
          | inr (p, e) ↦ rw (accepted, e, register_pool) (registered-existing p r on e fresh)
          | inl e ↦
              rw (accepted, e, register_pool)
                (registered-new r (rw (accepted, e, register_pool) at fine))
        ]
      ]

  -- On a valid registry in which another pool holds a node and its new pool does not, a `Register` of
  -- the node under the new pool leaves it with the old pool too. A later `Deregister` takes it out of the registered nodes
  -- and not out of the old pool, which holds a node that is registered nowhere.
  pub register_stale :
      (r : NodeRegistry) (k : String)
      → IsValid r
      → holds r k node.id ≡ true
      → k ≢ pool.name
      → pool.scaling_enabled ≡ true
      → (register hash node pool now r).1 ≡ false
      → holds r pool.name node.id ≡ false
      → let r' = (register hash node pool now r).0 in
        (holds r' k node.id ≡ true)
        × (holds r' pool.name node.id ≡ true)
        × (r'' : NodeRegistry) × (deregister node.id r' ≡ some (r'', false))
        × (lookup node.id r''.registered_nodes ≡ none)
        × (holds r'' k node.id ≡ true)
  register_stale r k v old other on fine fresh =
      let mine = registered-register r on fine fresh in
      let r' = (register hash node pool now r).0 in
      let (held, others) = holds-register r in
      let kept = others k node.id other ∙ old in
      let (r'', failed, e, _, none_left, gone, _, same, _) =
        deregister-IsValid node.id r' (register-IsValid hash node pool now r v) in
      (
        kept,
        held on fine,
        r'',
        e ∙ ap (λ b. some (r'', b)) (none_left ∙ rw mine),
        gone node.id ∙ ground arith,
        same node.id k (λ _ at. other (ground arith)) ∙ kept,
      )

-- ===== src/Registry/Removal.antt =====
-- `Deregister` on a valid registry: it does not panic, and removes the node and nothing else.
use replicator.Base.{
  String, Bool, true, false, ◌≡◌, ◌≢◌, refl, sym, ap, ◌∙◌, none, some, [], arith, inl, inr,
  if◌then◌else◌, string_eq, leb, length, ◌==◌, ◌&&◌, not, Option-cases, Bool-cases,
}
use replicator.Base.Dict.{Dict, lookup, insert, erase, lookup-insert, lookup-erase}
use replicator.Structs.{NodeRegistry, WorkerPool}
use replicator.Registry.{deregister_from, deregister}
use replicator.Registry.Invariant.{
  is_some, holds_in, holds, IsValid, IsNamed, IsPopulated, holds_in-insert, is_some-erase,
  length_of_lookup, ne-nil_of_length, insert-IsNamed, insert-IsPopulated,
}

erase-IsNamed :
    (pools : Dict String WorkerPool) (name : String) → IsNamed pools → IsNamed (erase name pools)
erase-IsNamed pools name h k p found = ground (arith, lookup-erase k name pools, h k p)

erase-IsPopulated :
    (pools : Dict String WorkerPool) (name : String)
    → ((k : String) (p : WorkerPool) → k ≢ name → lookup k pools ≡ some p → p.nodes ≢ [])
    → IsPopulated (erase name pools)
erase-IsPopulated pools name h k p found =
    h k p (ground (arith, lookup-erase k name pools)) (ground (arith, lookup-erase k name pools))

holds_in-erase :
    (name : String) (pools : Dict String WorkerPool) (k n : String)
    → holds_in (erase name pools) k n ≡ (not (k == name) && holds_in pools k n)
holds_in-erase name pools k n = ground (arith, lookup-erase k name pools)

-- The pool without the node.
abbrev left : String → WorkerPool → WorkerPool
left node pool = record pool {
  nodes = erase node pool.nodes;
  node_registrations = erase node pool.node_registrations;
}

-- The pools after the removal, by whether the pool has become empty.
abbrev remaining : String → String → WorkerPool → Dict String WorkerPool → Dict String WorkerPool
remaining node name pool pools =
    if leb (length (left node pool).nodes) 0
    then erase pool.name (insert name (left node pool) pools)
    else insert name (left node pool) pools

deregister_from_lem :
    (node name : String) (pool : WorkerPool) (r : NodeRegistry)
    → lookup name r.worker_pools ≡ some pool
    → deregister_from node name r
      ≡ some (record r {
        registered_nodes = erase node r.registered_nodes;
        worker_pools = remaining node name pool r.worker_pools;
      })
unfolding deregister_from
deregister_from_lem node name pool r here = rw (here, deregister_from)

module _ (node name : String) (pool : WorkerPool) (r : NodeRegistry) (v : IsValid r)
    (here : lookup name r.worker_pools ≡ some pool) where
  -- Which nodes the pools hold after the removal.
  holds_in-remaining :
      (k n : String)
      → (n ≡ node → k ≢ name)
      → holds_in (remaining node name pool r.worker_pools) k n ≡ holds r k n
  holds_in-remaining k n other = ground (
    arith,
    v.named name pool here,
    holds_in-insert name (left node pool) r.worker_pools k n,
    holds_in-erase pool.name (insert name (left node pool) r.worker_pools) k n,
    is_some-erase n node pool.nodes,
    length_of_lookup n (erase node pool.nodes),
  )

  holds_in-remaining_self :
      (k : String) → k ≡ name → holds_in (remaining node name pool r.worker_pools) k node ≡ false
  holds_in-remaining_self k same = ground (
    arith,
    v.named name pool here,
    holds_in-insert name (left node pool) r.worker_pools k node,
    holds_in-erase pool.name (insert name (left node pool) r.worker_pools) k node,
    is_some-erase node node pool.nodes,
  )

  remaining-IsPopulated : IsPopulated (remaining node name pool r.worker_pools)
  remaining-IsPopulated = elim (Bool-cases (leb (length (left node pool).nodes) 0)) [
    | inl emptied ↦ rw emptied (
        erase-IsPopulated _ pool.name λ k p other found. v.populated k p (
          ground
            (arith, v.named name pool here, lookup-insert k name (left node pool) r.worker_pools)))
    | inr kept ↦ rw kept (
        insert-IsPopulated (left node pool) r.worker_pools name (ne-nil_of_length _ kept)
          v.populated)
  ]

  remaining-IsNamed : IsNamed (remaining node name pool r.worker_pools)
  remaining-IsNamed = elim (Bool-cases (leb (length (left node pool).nodes) 0)) [
    | inl emptied ↦ rw emptied (erase-IsNamed _ pool.name stored)
    | inr kept ↦ rw kept stored
  ]
    where
      stored : IsNamed (insert name (left node pool) r.worker_pools)
      stored = insert-IsNamed (left node pool) r.worker_pools name (v.named name pool here) v.named

  removed-IsValid :
      lookup node r.registered_nodes ≡ some name
      → IsValid (record r {
        registered_nodes = erase node r.registered_nodes;
        worker_pools = remaining node name pool r.worker_pools;
      })
  removed-IsValid mine = record {
    named = remaining-IsNamed;
    populated = remaining-IsPopulated;
    member = λ n k h.
        holds_in-remaining k n (λ e. absurd (gone n k e h))
        ∙ v.member n k (ground (arith, lookup-erase n node r.registered_nodes));
  }
    where
      gone : (n k : String) → n ≡ node → lookup n (erase node r.registered_nodes) ≡ some k → ⊥
      gone n k e h = ground (arith, lookup-erase n node r.registered_nodes)

-- The pool that a registered node is in, on a valid registry.
pool_of :
    (node name : String) (r : NodeRegistry)
    → IsValid r
    → lookup node r.registered_nodes ≡ some name
    → (pool : WorkerPool) × (lookup name r.worker_pools ≡ some pool)
pool_of node name r v mine = elim (Option-cases (lookup name r.worker_pools)) [
  | inl e ↦ absurd (ground (arith, v.member node name mine))
  | inr found ↦ found
]

-- `Deregister` on a valid registry does not panic, returns an error exactly if the node was not
-- registered, and leaves a valid registry in which the node is not registered and all others are
-- registered as before. The pool that the node was registered with no longer holds it; but for that,
-- each pool holds the nodes that it held. After an error nothing has changed.
pub deregister-IsValid :
    (node : String) (r : NodeRegistry)
    → IsValid r
    → (r' : NodeRegistry) × (failed : Bool) × (deregister node r ≡ some (r', failed))
      × IsValid r'
      × (failed ≡ not (is_some (lookup node r.registered_nodes)))
      × ((n : String)
          → lookup n r'.registered_nodes
            ≡ (if n == node then none else lookup n r.registered_nodes))
      × ((k : String) → lookup node r.registered_nodes ≡ some k → holds r' k node ≡ false)
      × ((n k : String)
          → (n ≡ node → lookup node r.registered_nodes ≢ some k)
          → holds r' k n ≡ holds r k n)
      × (failed ≡ true → r' ≡ r)
unfolding deregister
deregister-IsValid node r v = elim (Option-cases (lookup node r.registered_nodes)) [
  | inl e ↦ (
    r,
    true,
    rw (e, deregister),
    v,
    rw e,
    λ n. ground arith,
    λ k h. ground arith,
    λ n k h. refl,
    λ h. refl,
  )
  | inr (name, e) ↦
      let (pool, here) = pool_of node name r v e in
      (
        record r {
          registered_nodes = erase node r.registered_nodes;
          worker_pools = remaining node name pool r.worker_pools;
        },
        false,
        rw (e, deregister) (rw (deregister_from_lem node name pool r here)),
        removed-IsValid node name pool r v here e,
        rw e,
        λ n. lookup-erase n node r.registered_nodes,
        λ k h. holds_in-remaining_self node name pool r v here k (ground arith),
        λ n k h.
            holds_in-remaining node name pool r v here k n
              (λ same at. h same (e ∙ ap some (sym at))),
        λ h. cc,
      )
]

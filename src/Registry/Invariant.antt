-- ===== src/Registry/Invariant.antt =====
-- What holds of the registry between two operations.
use replicator.Base.{
  ℕ, String, Bool, true, false, ◌≡◌, ◌≢◌, refl, Option, none, some, [], ◌∷◌, arith, inl, inr,
  if◌then◌else◌, string_eq, leb, ◌==◌, ◌||◌, ◌&&◌, not, length, Result, Result-cases, Option-cases,
  Bool-cases, sym, ◌∙◌,
}
use replicator.Base.Dict.{Dict, lookup, insert, erase, lookup-insert, lookup-erase}
use replicator.Structs.{Node, NodeRegistry, WorkerPool, Time}
use replicator.Registry.{
  node_status_ready, new_scaling_provider, refresh, add_node, register_existing, register_pool,
  register_new, register,
}

abbrev pub is_some {ℓ} : {A : Type ℓ} → Option A → Bool
is_some none = false
is_some (some a) = true

-- Whether the node is among the nodes of the pool with that name.
abbrev pub holds_in : Dict String WorkerPool → String → String → Bool
holds_in pools name node = elim (lookup name pools) [
  | none ↦ false
  | some pool ↦ is_some (lookup node pool.nodes)
]

abbrev pub holds : NodeRegistry → String → String → Bool
holds r = holds_in r.worker_pools

-- Each pool stands under its own name and has a node, and a registered node is in its pool.
pub record IsValid (r : NodeRegistry) : Type 0 where
  pub named :
      (name : String) (pool : WorkerPool)
      → lookup name r.worker_pools ≡ some pool
      → pool.name ≡ name
  pub populated :
      (name : String) (pool : WorkerPool) → lookup name r.worker_pools ≡ some pool → pool.nodes ≢ []
  pub member :
      (node name : String) → lookup node r.registered_nodes ≡ some name → holds r name node ≡ true

module _ {V : Type 0} where
  insert-ne-nil : (k : String) (v : V) (d : Dict String V) → insert k v d ≢ []
  unfolding insert
  insert-ne-nil k v [] = λ e. cc
  insert-ne-nil k v ((j, w) ∷ d) = ground arith

  pub length_of_lookup :
      (k : String) (d : Dict String V) → is_some (lookup k d) ≡ true → leb (length d) 0 ≡ false
  unfolding lookup
  length_of_lookup k [] h = cc
  length_of_lookup k (x ∷ d) h = ground arith

  pub ne-nil_of_length : (d : Dict String V) → leb (length d) 0 ≡ false → d ≢ []
  ne-nil_of_length [] h = cc
  ne-nil_of_length (x ∷ d) h = λ e. cc

  pub is_some-insert :
      (n k : String) (v : V) (d : Dict String V)
      → is_some (lookup n (insert k v d)) ≡ (n == k || is_some (lookup n d))
  is_some-insert n k v d = ground (arith, lookup-insert n k v d)

  pub is_some-erase :
      (n k : String) (d : Dict String V)
      → is_some (lookup n (erase k d)) ≡ (not (n == k) && is_some (lookup n d))
  is_some-erase n k d = ground (arith, lookup-erase n k d)

pub holds_in-insert :
    (name : String) (pool : WorkerPool) (pools : Dict String WorkerPool) (k n : String)
    → holds_in (insert name pool pools) k n
      ≡ (if k == name then is_some (lookup n pool.nodes) else holds_in pools k n)
holds_in-insert name pool pools k n = ground (arith, lookup-insert k name pool pools)

module _ (hash : WorkerPool → Result ℕ) where
  pub refresh_keeps :
      (existing pool : WorkerPool)
      → ((refresh hash existing pool).nodes ≡ existing.nodes)
        × ((refresh hash existing pool).name ≡ existing.name)
  unfolding refresh
  refresh_keeps existing pool = ground arith

module _ (hash : WorkerPool → Result ℕ) (node : Node) (pool : WorkerPool) (now : Time) where
  register_existing-member :
      (existing : WorkerPool) (r : NodeRegistry) (n k : String)
      → lookup pool.name r.worker_pools ≡ some existing
      → (lookup n r.registered_nodes ≡ some k → holds r k n ≡ true)
      → lookup n (register_existing hash node pool now existing r).registered_nodes ≡ some k
      → holds (register_existing hash node pool now existing r) k n ≡ true
  unfolding register_existing
  register_existing-member existing r n k here old h =
      let p = refresh hash existing pool in
      ground (
        arith,
        refresh_keeps hash existing pool,
        holds_in-insert pool.name p r.worker_pools k n,
        holds_in-insert pool.name (add_node node now p) r.worker_pools k n,
        is_some-insert n node.id node p.nodes,
        lookup-insert n node.id pool.name r.registered_nodes,
      )

-- The first two parts of the invariant, over the map of the pools alone.
abbrev pub IsNamed : Dict String WorkerPool → Type 0
IsNamed pools = (k : String) (p : WorkerPool) → lookup k pools ≡ some p → p.name ≡ k

abbrev pub IsPopulated : Dict String WorkerPool → Type 0
IsPopulated pools = (k : String) (p : WorkerPool) → lookup k pools ≡ some p → p.nodes ≢ []

pub insert-IsNamed :
    (pool : WorkerPool) (pools : Dict String WorkerPool) (name : String)
    → pool.name ≡ name
    → IsNamed pools
    → IsNamed (insert name pool pools)
insert-IsNamed pool pools name same h k p found =
    ground (arith, lookup-insert k name pool pools, h k p)

pub insert-IsPopulated :
    (pool : WorkerPool) (pools : Dict String WorkerPool) (name : String)
    → pool.nodes ≢ []
    → IsPopulated pools
    → IsPopulated (insert name pool pools)
insert-IsPopulated pool pools name some_node h k p found = elim (Bool-cases (k == name)) [
  | inl same ↦ λ e. some_node (ground (arith, lookup-insert k name pool pools))
  | inr other ↦ h k p (ground (arith, lookup-insert k name pool pools))
]

module _ (hash : WorkerPool → Result ℕ) (node : Node) (pool : WorkerPool) (now : Time) where
  -- Whatever `Register` does to an existing pool, it stores one pool under the same name.
  pub register_existing-insert :
      (existing : WorkerPool) (r : NodeRegistry)
      → (q : WorkerPool) × ((register_existing hash node pool now existing r).worker_pools
          ≡ insert pool.name q r.worker_pools)
        × (q.name ≡ existing.name)
        × (existing.nodes ≢ [] → q.nodes ≢ [])
  unfolding register_existing
  register_existing-insert existing r = elim (Option-cases (lookup node.id existing.nodes)) [
    | inr (known, e) ↦ (
      refresh hash existing pool,
      rw (e, register_existing),
      (refresh_keeps hash existing pool).1,
      λ h e'. h (sym (refresh_keeps hash existing pool).0 ∙ e'),
    )
    | inl e ↦ elim (Bool-cases pool.scaling_enabled) [
      | inl on ↦ (
        add_node node now (refresh hash existing pool),
        ground arith,
        (refresh_keeps hash existing pool).1,
        λ _. insert-ne-nil node.id node (refresh hash existing pool).nodes,
      )
      | inr off ↦ (
        refresh hash existing pool,
        ground arith,
        (refresh_keeps hash existing pool).1,
        λ h e'. h (sym (refresh_keeps hash existing pool).0 ∙ e'),
      )
    ]
  ]

  register_existing-IsValid :
      (existing : WorkerPool) (r : NodeRegistry)
      → lookup pool.name r.worker_pools ≡ some existing
      → IsValid r
      → IsValid (register_existing hash node pool now existing r)
  register_existing-IsValid existing r here v =
      let (q, stored, name, nodes) = register_existing-insert existing r in
      record {
        named =
            rw stored (insert-IsNamed q r.worker_pools pool.name (name ∙ v.named _ _ here) v.named);
        populated = rw stored (
            insert-IsPopulated q r.worker_pools pool.name (nodes (v.populated _ _ here))
              v.populated);
        member =
            λ n k. register_existing-member hash node pool now existing r n k here (v.member n k);
      }

  inserted-member :
      (q : WorkerPool) (r : NodeRegistry) (n k : String)
      → q.nodes ≡ insert node.id node pool.nodes
      → (lookup n r.registered_nodes ≡ some k → holds r k n ≡ true)
      → lookup n (insert node.id pool.name r.registered_nodes) ≡ some k
      → lookup pool.name r.worker_pools ≡ none
      → holds_in (insert pool.name q r.worker_pools) k n ≡ true
  inserted-member q r n k nodes old h absent = ground (
    arith,
    holds_in-insert pool.name q r.worker_pools k n,
    is_some-insert n node.id node pool.nodes,
    lookup-insert n node.id pool.name r.registered_nodes,
  )

  -- A new pool gets its first node.
  register_new-IsValid :
      (r : NodeRegistry)
      → lookup pool.name r.worker_pools ≡ none
      → IsValid r
      → IsValid (register_new hash node pool now r).0
  unfolding register_new
  register_new-IsValid r absent v = elim (Result-cases (new_scaling_provider pool)) [
    | inl e ↦ rw (e, register_new) v
    | inr (provider, e) ↦
        let q : WorkerPool = record (add_node node now pool) { scaling_provider = some provider } in
        rw (e, register_new)
          (record {
            named = insert-IsNamed q r.worker_pools pool.name refl v.named;
            populated =
                insert-IsPopulated q r.worker_pools pool.name
                  (insert-ne-nil node.id node pool.nodes) v.populated;
            member = λ n k h. inserted-member q r n k refl (v.member n k) h absent;
          })
  ]

  -- `Register` keeps the registry valid, whatever the node and the configuration, and whether it
  -- registers the node, updates a pool, or returns an error.
  pub register-IsValid : (r : NodeRegistry) → IsValid r → IsValid (register hash node pool now r).0
  unfolding register
  register-IsValid r v = elim (Bool-cases (not (node.status == node_status_ready) || node.drain)) [
    | inl refused ↦ rw refused v
    | inr accepted ↦ elim (Option-cases (lookup pool.name r.worker_pools)) [
      | inl e ↦ rw (accepted, e, register_pool) (register_new-IsValid r e v)
      | inr (existing, e) ↦
          rw (accepted, e, register_pool) (register_existing-IsValid existing r e v)
    ]
  ]

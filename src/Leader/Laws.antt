-- ===== src/Leader/Laws.antt =====
-- When a copy of the program leads, and what the protection of its own node is worth.
use replicator.Base.{
  Result, String, true, false, ◌≡◌, ◌≢◌, refl, sym, ap, ◌∙◌, ◌⊎◌, inl, inr, Option, none, some,
  arith, ◌==◌, ◌||◌, string_eq, ok, Bool-cases, Option-cases, Result-cases,
}
use replicator.Base.Dict.{lookup, lookup-insert}
use replicator.Floats.{Floats}
use replicator.Structs.{NodeRegistry, WorkerPool, ClusterCapacity}
use replicator.Capacity.{NomadCapacity}
use replicator.Capacity.Limits.{least_allocated_node}
use replicator.Capacity.Least.{least_allocated_node-IsCandidate}
use replicator.Leader.{
  Sessions, LeaderCandidate, Protection, request_lock, with_holder, acquire_leadership, campaign,
  leader_election, node_protection_check,
}

module _ {W : Type 0} (c : Sessions W) where
  -- After an election the candidate takes itself for the leader exactly if the election gave it the
  -- lock or it took itself for the leader before: no election takes the leadership away.
  pub leader_election-leader :
      (l : LeaderCandidate) (w : W)
      → let r = (leader_election c l w).1 in r.0.leader ≡ (r.1 || l.leader)
  unfolding leader_election campaign
  leader_election-leader l w = elim (Bool-cases (l.session == "")) [
    | inr e ↦ rw (e, leader_election) (ground arith)
    | inl e ↦ elim (Result-cases (c.create_session l.ttl w).1) [
      | inl e' ↦ rw (e, e', leader_election) refl
      | inr (id, e') ↦ rw (e, e', leader_election) (ground arith)
    ]
  ]

  -- Whether Consul says that the session may have the lock.
  abbrev pub IsGranted : String → String → W → W → W → Type 0
  IsGranted key session w1 w2 w3 =
      ((c.session_info session w2).1 ≡ ok true)
      × (((c.holder key w1).1 ≡ ok (some session)) ⊎ ((c.acquire key session w3).1 ≡ ok true))

  request_lock-granted :
      (key session : String) (w : W)
      → (request_lock c key session w).1.1 ≡ true
      → (c.acquire key session w).1 ≡ ok true
  unfolding request_lock
  request_lock-granted key session w h = elim (Result-cases (c.acquire key session w).1) [
    | inl e ↦ absurd (ground arith)
    | inr (b, e) ↦ ground arith
  ]

  with_holder-granted :
      (key session : String) (holder : Option String) (w : W)
      → (with_holder c key session holder w).1.1 ≡ true
      → (holder ≡ some session) ⊎ ((c.acquire key session w).1 ≡ ok true)
  unfolding with_holder
  with_holder-granted key session none w h = inr (request_lock-granted key session w h)
  with_holder-granted key session (some holder) w h = elim (string_eq.dec holder session) [
    | yes same ↦ inl (ap some same)
    | no other ↦ inr (request_lock-granted key session w (ground (arith, other)))
  ]

  -- `AcquireLeadership` reports the lock only for a session that exists, and only if Consul named that
  -- session as the holder of the key or granted it the lock, asked in this order.
  pub acquire_leadership-IsGranted :
      (key session : String) (w : W)
      → (acquire_leadership c key session w).1.1 ≡ true
      → let w2 = (c.holder key w).0 in IsGranted key session w w2 (c.session_info session w2).0
  unfolding acquire_leadership
  acquire_leadership-IsGranted key session w h = elim (Result-cases (c.holder key w).1) [
    | inl e ↦ absurd (ground arith)
    | inr (holder, e) ↦
        let info = c.session_info session (c.holder key w).0 in
        elim (Result-cases info.1) [
          | inl e' ↦ absurd (ground arith)
          | inr (exists, e') ↦ elim (Bool-cases exists) [
            | inr off ↦ absurd (ground arith)
            | inl on ↦
                elim (with_holder-granted key session holder info.0
                  (rw (e, e', on, acquire_leadership) at h)) [
                    | inl same ↦ (e' ∙ ap ok on, inl (e ∙ ap ok same))
                    | inr granted ↦ (e' ∙ ap ok on, inr granted)
                  ]
          ]
        ]
  ]

-- The check succeeds exactly by protecting the host in the pool that it is registered with.
node_protection_check-protected :
    (allocation host : String) (r : NodeRegistry) (p : Protection)
    → allocation ≢ ""
    → node_protection_check allocation (ok host) r ≡ some p
    → p.failed ≡ false
    → (host ≢ "")
      × (name : String) × (pool : WorkerPool) × (lookup host r.registered_nodes ≡ some name)
      × (lookup name p.registry.worker_pools ≡ some pool)
      × (pool.protected_node ≡ host)
unfolding node_protection_check
node_protection_check-protected allocation host r p inside h fine = elim (string_eq.dec host "") [
  | yes empty ↦ absurd (ground (arith, inside, empty))
  | no real ↦ elim (Option-cases (lookup host r.registered_nodes)) [
    | inl e ↦ absurd (ground (arith, inside, real, e))
    | inr (name, e) ↦ elim (Option-cases (lookup name r.worker_pools)) [
      | inl e' ↦ absurd (ground (arith, inside, real, e, e'))
      | inr (pool, e') ↦
          let q : WorkerPool = record pool { protected_node = host } in
          (
            real,
            name,
            q,
            e,
            ground (arith, inside, real, lookup-insert name name q r.worker_pools),
            refl,
          )
    ]
  ]
]

module _ {W F : Type 0} (fl : Floats F) (n : NomadCapacity W) where
  -- Where the program runs in an allocation and the check succeeds for the node that hosts it, the
  -- pool that the host is registered with protects it, and `LeastAllocatedNode` for that pool does not
  -- pick it, whatever the capacity.
  pub node_protection_check-least_allocated_node :
      (allocation host : String) (r : NodeRegistry) (p : Protection)
      → allocation ≢ ""
      → node_protection_check allocation (ok host) r ≡ some p
      → p.failed ≡ false
      → (name : String) × (pool : WorkerPool) × (lookup host r.registered_nodes ≡ some name)
        × (lookup name p.registry.worker_pools ≡ some pool)
        × (pool.protected_node ≡ host)
        × ((c : ClusterCapacity F) (w : W)
            → (least_allocated_node fl n c pool.protected_node w).1.0 ≢ host)
  node_protection_check-least_allocated_node allocation host r p inside h fine =
      let (real, name, pool, mine, here, same) =
        node_protection_check-protected allocation host r p inside h fine in
      (
        name,
        pool,
        mine,
        here,
        same,
        λ c w e. elim (least_allocated_node-IsCandidate fl n c pool.protected_node w) [
          | inl nobody ↦ real (sym e ∙ nobody)
          | inr (node, _, _, other) ↦ other (e ∙ sym same)
        ],
      )

-- The check leaves the registry locked exactly if the program runs in an allocation whose host is
-- known and is not a registered node, and then it returns an error.
pub node_protection_check_locked_iff :
    (allocation : String) (reply : Result String) (r : NodeRegistry) (p : Protection)
    → node_protection_check allocation reply r ≡ some p
    → (p.locked ≡ true
        → (allocation ≢ "")
          × (host : String) × (reply ≡ ok host)
          × (host ≢ "")
          × (lookup host r.registered_nodes ≡ none)
          × (p.failed ≡ true))
      × ((host : String)
          → allocation ≢ ""
          → reply ≡ ok host
          → host ≢ ""
          → lookup host r.registered_nodes ≡ none
          → p.locked ≡ true)
unfolding node_protection_check
node_protection_check_locked_iff allocation reply r p h = (
  λ locked. elim (string_eq.dec allocation "") [
    | yes outside ↦ absurd (ground (arith, outside))
    | no inside ↦ known inside locked
  ],
  λ host inside e real missing. ground (arith, inside, e, real, missing),
)
  where
    known :
        allocation ≢ ""
        → p.locked ≡ true
        → (allocation ≢ "")
          × (host : String) × (reply ≡ ok host)
          × (host ≢ "")
          × (lookup host r.registered_nodes ≡ none)
          × (p.failed ≡ true)
    known inside locked = elim (Result-cases reply) [
      | inl e ↦ absurd (ground (arith, inside, e))
      | inr (host, e) ↦ elim (string_eq.dec host "") [
        | yes empty ↦ absurd (ground (arith, inside, e, empty))
        | no real ↦ elim (Option-cases (lookup host r.registered_nodes)) [
          | inl e' ↦ (inside, host, e, real, e', ground (arith, inside, e, real, e'))
          | inr (name, e') ↦ elim (Option-cases (lookup name r.worker_pools)) [
            | inl e'' ↦ absurd (ground (arith, inside, e, real, e', e''))
            | inr (pool, e'') ↦ absurd (ground (arith, inside, e, real, e', e''))
          ]
        ]
      ]
    ]

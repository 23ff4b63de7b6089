-- ===== src/Server/Registered.antt =====
-- What the ticks of a server leave of the registry.
use mathlib.Core.Option.{some-injective}
use mathlib.Core.Path.{subst}
use replicator.Base.{
  String, ◌&&◌, Option, none, some, List, [], ◌∷◌, ◌≡◌, refl, ◌∙◌, ◌==◌, string_eq, if◌then◌else◌,
  ltb, length, inl, inr, Option-cases, Result-cases, Bool-cases, M, Result, err, arith,
}
use replicator.Base.Dict.{lookup, insert, lookup-insert, keys}
use replicator.Floats.{Floats}
use replicator.Structs.{NodeRegistry, WorkerPool}
use replicator.World.{Consul, Notifier}
use replicator.Leader.{Sessions, Protection, node_protection_check}
use replicator.Registry.Invariant.{IsValid}
use replicator.Capacity.{NomadCapacity}
use replicator.Scaling.{Machines, worker_pool_scaling}
use replicator.Scaling.Effects.{worker_pool_scaling-IsValid}
use replicator.JobScaling.{NomadJobs, Patience}
use replicator.JobScaling.Evaluate.{NomadAllocations}
use replicator.Server.{
  Running, Event, leader_tick, job_tick, cluster_tick, scale_pools, cluster_round, tick, run_ticks,
}

-- A valid registry with the nodes that were registered before.
abbrev pub IsKeptBy : NodeRegistry → NodeRegistry → Type 0
IsKeptBy r r' = IsValid r' × (r'.registered_nodes ≡ r.registered_nodes)

-- The registry with a node of a pool protected.
protect-IsKeptBy :
    (name host : String) (pool : WorkerPool) (r : NodeRegistry)
    → IsValid r
    → lookup name r.worker_pools ≡ some pool
    → IsKeptBy r (record r {
      worker_pools = insert name (record pool { protected_node = host }) r.worker_pools;
    })
protect-IsKeptBy name host pool r v here =
    let q : WorkerPool = record pool { protected_node = host } in
    (
      record {
        named = λ k p found.
            ground
              (arith, lookup-insert k name q r.worker_pools, v.named k p, v.named name pool here);
        populated = λ k p found. ground (
          arith,
          lookup-insert k name q r.worker_pools,
          v.populated k p,
          v.populated name pool here,
        );
        member = λ node k found.
            ground (arith, lookup-insert k name q r.worker_pools, v.member node k found);
      },
      refl,
    )

node_protection_check-IsKeptBy :
    (allocation : String) (reply : Result String) (r : NodeRegistry) (p : Protection)
    → IsValid r
    → node_protection_check allocation reply r ≡ some p
    → IsKeptBy r p.registry
unfolding node_protection_check
node_protection_check-IsKeptBy allocation reply r p v h = elim (string_eq.dec allocation "") [
  | yes outside ↦ same (ground (arith, outside))
  | no inside ↦ elim (Result-cases reply) [
    | inl e ↦ same (ground (arith, inside, e))
    | inr (host, e) ↦ elim (string_eq.dec host "") [
      | yes empty ↦ same (ground (arith, inside, e, empty))
      | no real ↦ elim (Option-cases (lookup host r.registered_nodes)) [
        | inl e' ↦ same (ground (arith, inside, e, real, e'))
        | inr (name, e') ↦ elim (Option-cases (lookup name r.worker_pools)) [
          | inl e'' ↦ absurd (ground (arith, inside, e, real, e', e''))
          | inr (pool, e'') ↦
              subst (IsKeptBy r) (ground (arith, inside, e, real, e', e''))
                (protect-IsKeptBy name host pool r v e'')
        ]
      ]
    ]
  ]
]
  where
    same : r ≡ p.registry → IsKeptBy r p.registry
    same e = subst (IsKeptBy r) e (v, refl)

module _ {W B F A : Type 0} (c : Consul W B) (sessions : Sessions W) (notifiers : List (Notifier W))
    (fl : Floats F) (n : NomadCapacity W) (m : Machines W) (nj : NomadJobs W)
    (na : NomadAllocations W A) (patience : Patience) (key_root : String) (allocation : String)
    (reverse_lookup : String → M W (Result String)) where
  worker_pool_scaling-registered :
      (jobs : List String) (name : String) (r r' : NodeRegistry) (w : W)
      → IsValid r
      → (worker_pool_scaling c notifiers fl n m key_root jobs name r w).1 ≡ some r'
      → IsKeptBy r r'
  unfolding worker_pool_scaling
  worker_pool_scaling-registered jobs name r r' w v h =
      elim (Option-cases (lookup name r.worker_pools)) [
        | inl e ↦ absurd (ground (arith, h))
        | inr (pool, e) ↦
            let (v', same, _, _) =
              worker_pool_scaling-IsValid c notifiers fl n m key_root jobs name pool r r' w v e h in
            (v', same)
      ]

  scale_pools-IsKeptBy :
      (jobs names : List String) (r r' : NodeRegistry) (w : W)
      → IsValid r
      → (scale_pools c sessions notifiers fl n m nj na patience key_root allocation reverse_lookup
          jobs names r w).1
        ≡ some r'
      → IsKeptBy r r'
  unfolding scale_pools
  scale_pools-IsKeptBy jobs [] r r' w v h = subst (IsKeptBy r) (some-injective _ _ h) (v, refl)
  scale_pools-IsKeptBy jobs (name ∷ names) r r' w v h =
      let step = worker_pool_scaling c notifiers fl n m key_root jobs name r w in
      elim (Option-cases step.1) [
        | inl e ↦ absurd (ground (arith, h))
        | inr (r1, e) ↦
            let (v1, same1) = worker_pool_scaling-registered jobs name r r1 w v e in
            let (v2, same2) =
              scale_pools-IsKeptBy jobs names r1 r' step.0 v1 (rw (e, scale_pools) at h) in
            (v2, same2 ∙ same1)
      ]

  cluster_round-IsKeptBy :
      (names : List String) (r r' : Running F) (w : W)
      → IsValid r.registry
      → (cluster_round c sessions notifiers fl n m nj na patience key_root allocation reverse_lookup
          names r w).1
        ≡ some r'
      → IsKeptBy r.registry r'.registry
  unfolding cluster_round
  cluster_round-IsKeptBy names r r' w v h =
      elim (Option-cases (node_protection_check allocation host.1 r.registry)) [
        | inl e ↦ absurd (ground (arith, h))
        | inr (p, e) ↦ elim (Bool-cases p.locked) [
          | inl locked ↦ absurd (ground (arith, h))
          | inr free ↦ after p e (rw (e, free, cluster_round) at h)
        ]
      ]
    where
      host : W × Result String
      host = if allocation == "" then (w, err) else reverse_lookup allocation w

      after :
          (p : Protection)
          → node_protection_check allocation host.1 r.registry ≡ some p
          → let scaled =
              (scale_pools c sessions notifiers fl n m nj na patience key_root allocation
                reverse_lookup
                (keys r.policies.policies)
                names
                p.registry
                host.0).1 in
            (elim scaled as (λ _. Option (Running F)) [
              | none ↦ none
              | some registry ↦ some (record r { registry = registry })
            ])
              ≡ some r'
            → IsKeptBy r.registry r'.registry
      after p e k =
          let scaled =
            scale_pools c sessions notifiers fl n m nj na patience key_root allocation
              reverse_lookup (keys r.policies.policies) names p.registry host.0 in
          let (v1, same1) = node_protection_check-IsKeptBy allocation host.1 r.registry p v e in
          elim (Option-cases scaled.1) [
            | inl e' ↦ absurd (ground (arith, k))
            | inr (registry, e') ↦
                let (v2, same2) =
                  scale_pools-IsKeptBy (keys r.policies.policies) names p.registry registry host.0
                    v1 e' in
                let result : Running F = record r { registry = registry } in
                subst (λ (q : Running F). IsKeptBy r.registry q.registry)
                  (some-injective result r' (rw e' at k)) (v2, same2 ∙ same1)
          ]

  tick-IsKeptBy :
      (e : Event) (r r' : Running F) (w : W)
      → IsValid r.registry
      → (tick c sessions notifiers fl n m nj na patience key_root allocation reverse_lookup e r w).1
        ≡ some r'
      → IsKeptBy r.registry r'.registry
  unfolding tick
  tick-IsKeptBy leader_tick r r' w v h =
      subst (λ (q : Running F). IsKeptBy r.registry q.registry) (some-injective _ _ h) (v, refl)
  tick-IsKeptBy (job_tick names) r r' w v h =
      elim (Bool-cases (r.candidate.leader && ltb 0 (length r.policies.policies))) [
        | inl e ↦
            subst (λ (q : Running F). IsKeptBy r.registry q.registry)
              (some-injective _ _ (rw (e, tick) at h)) (v, refl)
        | inr e ↦
            subst (λ (q : Running F). IsKeptBy r.registry q.registry)
              (some-injective _ _ (rw (e, tick) at h)) (v, refl)
      ]
  tick-IsKeptBy (cluster_tick names) r r' w v h =
      elim (Bool-cases (r.candidate.leader && ltb 0 (length r.registry.worker_pools))) [
        | inl e ↦ cluster_round-IsKeptBy names r r' w v (rw (e, tick) at h)
        | inr e ↦
            subst (λ (q : Running F). IsKeptBy r.registry q.registry)
              (some-injective _ _ (rw (e, tick) at h)) (v, refl)
      ]

  -- Whatever the ticks and their order, a server whose ticks do not panic or hang keeps its registry
  -- valid, with the nodes that were registered: scaling never unregisters a node or empties a pool.
  run_ticks-IsKeptBy :
      (events : List Event) (r r' : Running F) (w : W)
      → IsValid r.registry
      → (run_ticks c sessions notifiers fl n m nj na patience key_root allocation reverse_lookup
          events r w).1
        ≡ some r'
      → IsKeptBy r.registry r'.registry
  unfolding run_ticks
  run_ticks-IsKeptBy [] r r' w v h =
      subst (λ (q : Running F). IsKeptBy r.registry q.registry) (some-injective _ _ h) (v, refl)
  run_ticks-IsKeptBy (e ∷ events) r r' w v h =
      let t =
        tick c sessions notifiers fl n m nj na patience key_root allocation reverse_lookup e r w in
      elim (Option-cases t.1) [
        | inl k ↦ absurd (ground (arith, h))
        | inr (r1, k) ↦
            let (v1, same1) = tick-IsKeptBy e r r1 w v k in
            let (v2, same2) = run_ticks-IsKeptBy events r1 r' t.0 v1 (rw (k, run_ticks) at h) in
            (v2, same2 ∙ same1)
      ]

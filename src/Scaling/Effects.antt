-- ===== src/Scaling/Effects.antt =====
-- What `workerPoolScaling` leaves of the registry and of the outside world.
use replicator.Base.{
  String, true, ◌≡◌, ◌≢◌, refl, sym, ◌∙◌, inl, inr, some, List, arith, string_eq, Option-cases,
}
use mathlib.Core.Option.{some-injective}
use mathlib.Core.Path.{subst}
use replicator.Base.Dict.{lookup, insert, lookup-insert}
use replicator.Floats.{Floats}
use replicator.Structs.{ScalingState, WorkerPool, NodeRegistry}
use replicator.World.{Consul, Notifier}
use replicator.State.{read_state}
use replicator.Failsafe.{failsafe_check}
use replicator.Capacity.{NomadCapacity}
use replicator.Registry.Invariant.{holds, holds_in, IsValid}
use replicator.Scaling.{Machines, stopped, initial_state, gate, pass_gate, worker_pool_scaling}

module _ {W B F : Type 0} (c : Consul W B) (notifiers : List (Notifier W)) (fl : Floats F)
    (n : NomadCapacity W) (m : Machines W) (key_root : String) where
  gate_failsafe :
      (pool : WorkerPool) (jobs : List String) (w : W)
      → let (w1, s) = read_state c (initial_state key_root pool) true w in
        s.failsafe_mode ≡ true → gate c notifiers fl n m key_root pool jobs w ≡ (w1, stopped s)
  unfolding gate failsafe_check
  gate_failsafe pool jobs w on = rw on refl

  -- A pool whose state is read as one in failsafe mode is left alone: after the state has been read
  -- nothing more is called, and the state that was read is all that changes in the registry.
  pub worker_pool_scaling_failsafe :
      (jobs : List String) (name : String) (pool : WorkerPool) (r : NodeRegistry) (w : W)
      → lookup name r.worker_pools ≡ some pool
      → let (w1, s) = read_state c (initial_state key_root pool) true w in
        s.failsafe_mode ≡ true
        → worker_pool_scaling c notifiers fl n m key_root jobs name r w ≡ (
          w1,
          some (record r {
            worker_pools = insert name (record pool { state = some s }) r.worker_pools;
          }),
        )
  unfolding worker_pool_scaling pass_gate
  worker_pool_scaling_failsafe jobs name pool r w here on =
      rw (here, gate_failsafe pool jobs w on, worker_pool_scaling) refl

  -- The registry, with a new state in one pool.
  abbrev WithState : String → WorkerPool → NodeRegistry → NodeRegistry → Type 0
  WithState name pool r r' =
      (s : ScalingState) × (r'
        ≡ record r { worker_pools = insert name (record pool { state = some s }) r.worker_pools })

  worker_pool_scaling-WithState :
      (jobs : List String) (name : String) (pool : WorkerPool) (r r' : NodeRegistry) (w : W)
      → lookup name r.worker_pools ≡ some pool
      → (worker_pool_scaling c notifiers fl n m key_root jobs name r w).1 ≡ some r'
      → WithState name pool r r'
  unfolding worker_pool_scaling
  worker_pool_scaling-WithState jobs name pool r r' w here h =
      let g = gate c notifiers fl n m key_root pool jobs w in
      let result = pass_gate c notifiers fl n m key_root pool r g.1 g.0 in
      elim (Option-cases result.1) [
        | inl e ↦ absurd (ground arith)
        | inr (s, e) ↦ (s, some-injective _ _ (sym (rw (here, e, worker_pool_scaling) at h)))
      ]

  -- `workerPoolScaling` of a registered pool that does not panic keeps the registry valid, the nodes
  -- that are registered, the nodes that each pool holds, and every other pool.
  pub worker_pool_scaling-IsValid :
      (jobs : List String) (name : String) (pool : WorkerPool) (r r' : NodeRegistry) (w : W)
      → IsValid r
      → lookup name r.worker_pools ≡ some pool
      → (worker_pool_scaling c notifiers fl n m key_root jobs name r w).1 ≡ some r'
      → IsValid r'
        × (r'.registered_nodes ≡ r.registered_nodes)
        × ((k node : String) → holds r' k node ≡ holds r k node)
        × ((k : String) → k ≢ name → lookup k r'.worker_pools ≡ lookup k r.worker_pools)
  worker_pool_scaling-IsValid jobs name pool r r' w v here h =
      let (s, e) = worker_pool_scaling-WithState jobs name pool r r' w here h in
      let q : WorkerPool = record pool { state = some s } in
      let pools = insert name q r.worker_pools in
      let same_holds : (k node : String) → holds_in pools k node ≡ holds r k node =
        λ k node. ground (arith, lookup-insert k name q r.worker_pools) in
      subst
        (λ (t : NodeRegistry).
          IsValid t
          × (t.registered_nodes ≡ r.registered_nodes)
          × ((k node : String) → holds t k node ≡ holds r k node)
          × ((k : String) → k ≢ name → lookup k t.worker_pools ≡ lookup k r.worker_pools))
        (sym e)
        (
          record {
            named = λ k p found.
                ground (
                  arith,
                  lookup-insert k name q r.worker_pools,
                  v.named k p,
                  v.named name pool here,
                );
            populated = λ k p found. ground (
              arith,
              lookup-insert k name q r.worker_pools,
              v.populated k p,
              v.populated name pool here,
            );
            member = λ node k found. same_holds k node ∙ v.member node k found;
          },
          refl,
          same_holds,
          λ k other. ground (arith, lookup-insert k name q r.worker_pools),
        )

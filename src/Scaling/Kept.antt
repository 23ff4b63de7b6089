-- ===== src/Scaling/Kept.antt =====
-- What a call of `workerPoolScaling` can do to the outside world.
use replicator.Base.{
  String, Bool, true, false, ◌≡◌, ◌≢◌, refl, none, some, List, [], ◌∷◌, ◌++◌, ◌||◌, ◌==◌, arith,
  string_eq, nat_eq, if_property, M, Option,
}
use replicator.Base.Int.{◌<ℤ◌}
use replicator.Base.Dict.{lookup}
use replicator.Floats.{Floats}
use replicator.Structs.{
  ScalingState, Direction, inward, out, none_wanted, unset, WorkerPool, NodeRegistry,
  ClusterCapacity,
}
use replicator.World.{Consul, Notifier}
use replicator.State.{read_state}
use replicator.Failsafe.{failsafe_check}
use replicator.Failsafe.Kept.{IsStable, persist_state_keeps, read_state_keeps, failsafe_check_keeps}
use replicator.Capacity.{NomadCapacity}
use replicator.Capacity.Limits.{
  Evaluation, panicked, failed, evaluated, evaluate_pool_scaling, least_allocated_node,
}
use replicator.Capacity.Kept.{IsAnswered, evaluate_pool_scaling_keeps, least_allocated_node_keeps}
use replicator.Scaling.{
  Machines, Gate, crashed, stopped, permitted, initial_state, failure_message,
  check_pool_scaling_threshold, check_cooldown_threshold, gate_requests, gate_cooldown,
  gate_provider, gate_direction, gate_evaluation, gate, scale_pool, drain_and_scale, scale_in_pool,
  act, pass_gate, worker_pool_scaling,
}
use replicator.Scaling.Gates.{IsEvaluated, gate-permitted}

-- A property of the world that every call but those that scale and drain keeps.
pub record IsUnscaled {W B : Type 0} (c : Consul W B) (notifiers : List (Notifier W))
    (n : NomadCapacity W) (m : Machines W) (P : W → Type 0) : Type 0 where
  pub stable : IsStable c notifiers P
  pub answered : IsAnswered n P
  pub safety_check :
      (pool : WorkerPool) (s : ScalingState) (w : W) → P w → P (m.safety_check pool s w).0

module _ {W B F : Type 0} (c : Consul W B) (notifiers : List (Notifier W)) (fl : Floats F)
    (n : NomadCapacity W) (m : Machines W) (key_root : String) (P : W → Type 0)
    (kept : IsUnscaled c notifiers n m P) where
  gate_cooldown_keeps :
      (pool : WorkerPool) (capacity : ClusterCapacity F) (s : ScalingState) (w : W)
      → P w
      → P (gate_cooldown c notifiers fl n m key_root pool capacity s w).0
  unfolding gate_cooldown gate_requests check_pool_scaling_threshold check_cooldown_threshold
  gate_cooldown_keeps pool capacity s w h =
      let cooled = check_cooldown_threshold c pool s w in
      let cooled_h =
        if_property (λ (r : M W Bool). P (r w).0) (s.last_scaling_event == 0) (λ first. h)
          (λ again. kept.stable.now w h) in
      if_property (λ (r : W × Gate F). P r.0) cooled.1
        (λ ready. persist_state_keeps c P kept.stable _ cooled.0 cooled_h) (λ early. cooled_h)

  gate_provider_keeps :
      (pool : WorkerPool) (capacity : ClusterCapacity F) (s : ScalingState) (w : W)
      → P w
      → P (gate_provider c notifiers fl n m key_root pool capacity s w).0
  unfolding gate_provider
  gate_provider_keeps pool capacity s w h = go (m.safety_check pool s w).1 refl
    where
      checked : P (m.safety_check pool s w).0
      checked = kept.safety_check pool s w h

      go :
          (reply : Option Bool)
          → (m.safety_check pool s w).1 ≡ reply
          → P (gate_provider c notifiers fl n m key_root pool capacity s w).0
      go none e = rw (e, gate_provider) checked
      go (some true) e = rw (e, gate_provider) (gate_cooldown_keeps pool capacity s _ checked)
      go (some false) e = rw (e, gate_provider) checked

  gate_evaluation_keeps :
      (pool : WorkerPool) (jobs : List String) (s : ScalingState) (w : W)
      → P w
      → P (gate_evaluation c notifiers fl n m key_root pool jobs s w).0
  unfolding gate_evaluation gate_direction
  gate_evaluation_keeps pool jobs s w h = go (evaluate_pool_scaling fl n pool jobs w).1 refl
    where
      measured : P (evaluate_pool_scaling fl n pool jobs w).0
      measured = evaluate_pool_scaling_keeps fl n P kept.answered pool jobs w h

      go :
          (reply : Evaluation fl)
          → (evaluate_pool_scaling fl n pool jobs w).1 ≡ reply
          → P (gate_evaluation c notifiers fl n m key_root pool jobs s w).0
      go panicked e = rw (e, gate_evaluation) measured
      go failed e = rw (e, gate_evaluation) measured
      go (evaluated capacity false) e = rw (e, gate_evaluation) measured
      go (evaluated capacity true) e =
          rw (e, gate_evaluation)
            (gate_provider_keeps pool capacity _ _
              (persist_state_keeps c P kept.stable _ _ measured))

  gate_keeps :
      (pool : WorkerPool) (jobs : List String) (w : W)
      → P w
      → P (gate c notifiers fl n m key_root pool jobs w).0
  unfolding gate
  gate_keeps pool jobs w h =
      let read = read_state c (initial_state key_root pool) true w in
      let read_h = read_state_keeps c P kept.stable (initial_state key_root pool) true w h in
      let message = failure_message pool in
      let checked = failsafe_check c notifiers read.1 pool.retry_threshold message read.0 in
      let checked_h =
        failsafe_check_keeps c P kept.stable read.1 pool.retry_threshold message read.0 read_h in
      if_property (λ (r : W × Gate F). P r.0) checked.1.1
        (λ passing. gate_evaluation_keeps pool jobs checked.1.0 checked.0 checked_h)
        (λ refused. checked_h)

  -- The scaling of a pool in a state and a world keeps a property: for a scale-out the call of the
  -- provider, for a scale-in the drain of the node that is chosen and, unless that fails, the call of
  -- the provider with the address of that node as the last eligible one.
  abbrev pub IsActKept : WorkerPool → NodeRegistry → ClusterCapacity F → ScalingState → W → Type 0
  IsActKept pool r found s w =
      (found.scaling_direction ≡ out → P w → P (m.scale pool s r w).0)
      × (found.scaling_direction ≡ inward
          → let (w1, (node, address)) = least_allocated_node fl n found pool.protected_node w in
            let (w2, refused) = m.drain_node node w1 in
            address ≢ ""
            → node ≢ ""
            → P w1
            → P w2
              × (refused ≡ false
                  → P w2
                  → P
                      (m.scale pool
                        (record s { eligible_nodes = s.eligible_nodes ++ (address ∷ []) }) r w2).0))

  act_keeps :
      (pool : WorkerPool) (r : NodeRegistry) (found : ClusterCapacity F) (s : ScalingState) (w : W)
      → IsActKept pool r found s w
      → P w
      → P (act c notifiers fl n m key_root pool r found s w).0
  unfolding act scale_in_pool drain_and_scale scale_pool
  act_keeps pool r found s w (outwards, inwards) h = go found.scaling_direction refl
    where
      go :
          (d : Direction)
          → found.scaling_direction ≡ d
          → P (act c notifiers fl n m key_root pool r found s w).0
      go out e = rw (e, act) (outwards e h)
      go none_wanted e = rw (e, act) h
      go unset e = rw (e, act) h
      go inward e =
          let (w1, (node, address)) = least_allocated_node fl n found pool.protected_node w in
          let chosen =
            least_allocated_node_keeps fl n P kept.answered found pool.protected_node w h in
          rw (e, act)
            (if_property (λ (v : W × Option ScalingState). P v.0) (address == "" || node == "")
              (λ missing. chosen)
              (λ present.
                let (drained, scaled) =
                  inwards e (ground (arith, present)) (ground (arith, present)) chosen in
                if_property (λ (v : W × Option ScalingState). P v.0) (m.drain_node node w1).1
                  (λ refused. drained) (λ accepted. scaled accepted drained)))

  -- `workerPoolScaling` calls the provider to scale, or drains a node, only where the state that it
  -- read was not in failsafe mode and had fewer failures than the retry threshold of the pool, and the
  -- evaluation, the provider's safety check, the cooldown and the number of requests all permitted
  -- scaling. Then it scales out if the capacity found says so, and for a scale-in drains the node that
  -- is least allocated and scales unless the drain fails: what these calls and all the others keep
  -- of the world, it keeps.
  pub worker_pool_scaling_keeps :
      (jobs : List String) (name : String) (pool : WorkerPool) (r : NodeRegistry) (w : W)
      → lookup name r.worker_pools ≡ some pool
      → ((found : ClusterCapacity F) (s : ScalingState)
          → let (w1, s0) = read_state c (initial_state key_root pool) true w in
            s0.failsafe_mode ≡ false
            → s0.failure_count <ℤ pool.retry_threshold
            → IsEvaluated c notifiers fl n m key_root pool jobs s0 w1 found s
            → IsActKept pool r found s (gate c notifiers fl n m key_root pool jobs w).0)
      → P w
      → P (worker_pool_scaling c notifiers fl n m key_root jobs name r w).0
  unfolding worker_pool_scaling pass_gate
  worker_pool_scaling_keeps jobs name pool r w here acts h =
      rw (here, worker_pool_scaling) (go (gate c notifiers fl n m key_root pool jobs w).1 refl)
    where
      gated : P (gate c notifiers fl n m key_root pool jobs w).0
      gated = gate_keeps pool jobs w h

      go :
          (g : Gate F)
          → (gate c notifiers fl n m key_root pool jobs w).1 ≡ g
          → P
              (pass_gate c notifiers fl n m key_root pool r
                (gate c notifiers fl n m key_root pool jobs w).1
                (gate c notifiers fl n m key_root pool jobs w).0).0
      go crashed e = rw (e, pass_gate) gated
      go (stopped s) e = rw (e, pass_gate) gated
      go (permitted s found) e =
          let (off, below, cleared) =
            gate-permitted c notifiers fl n m key_root pool jobs found s w e in
          rw (e, pass_gate) (act_keeps pool r found s _ (acts found s off below cleared) gated)

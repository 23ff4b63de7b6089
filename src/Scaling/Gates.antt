-- ===== src/Scaling/Gates.antt =====
-- What must hold before `workerPoolScaling` acts on a pool.
use replicator.Base.{
  String, Bool, true, false, ◌≡◌, refl, sym, ap, ◌∙◌, ◌⊎◌, ◌==◌, inl, inr, some, List, arith,
  if◌then◌else◌, string_eq, nat_eq, Bool-cases, Option-cases,
}
use mathlib.Core.Path.{subst}
use replicator.Base.Int.{pos, ◌<ℤ◌, ◌≤ℤ◌, ◌+ℤ◌, mul_int}
use replicator.Floats.{Floats}
use replicator.Structs.{ScalingState, WorkerPool, ClusterCapacity, second}
use replicator.World.{Consul, Notifier}
use replicator.State.{persist_state, read_state}
use replicator.Failsafe.{failsafe_check}
use replicator.Failsafe.Breaker.{failsafe_check_iff, failsafe_check_state}
use replicator.Capacity.{NomadCapacity}
use replicator.Capacity.Limits.{Evaluation, panicked, failed, evaluated, evaluate_pool_scaling}
use replicator.Scaling.{
  Machines, stopped, permitted, initial_state, failure_message, check_pool_scaling_threshold,
  check_cooldown_threshold, gate_requests, gate_cooldown, gate_provider, gate_direction,
  gate_evaluation, gate,
}

module _ {W B F : Type 0} (c : Consul W B) (notifiers : List (Notifier W)) (fl : Floats F)
    (n : NomadCapacity W) (m : Machines W) (key_root : String) where
  -- The pool was not scaled yet, or at the time read in a world its cooldown is over.
  abbrev pub HasCooled : WorkerPool → ScalingState → W → Type 0
  HasCooled pool u v =
      (u.last_scaling_event ≡ 0)
      ⊎ ((pos u.last_scaling_event +ℤ mul_int pool.cooldown (pos second)) ≤ℤ pos (c.now v).1)

  check_cooldown_threshold-HasCooled :
      (pool : WorkerPool) (u : ScalingState) (v : W)
      → (check_cooldown_threshold c pool u v).1 ≡ true
      → HasCooled pool u v
  unfolding check_cooldown_threshold
  check_cooldown_threshold-HasCooled pool u v h = elim (Bool-cases (u.last_scaling_event == 0)) [
    | inl e ↦ inl (ground (arith, e))
    | inr e ↦ inr (ground (arith, rw (e, check_cooldown_threshold) at h))
  ]

  -- The provider, the cooldown and the request count let a state pass, one after the other.
  abbrev pub IsCleared : WorkerPool → ScalingState → W → ScalingState → Type 0
  IsCleared pool u v s =
      let (v1, safe) = m.safety_check pool u v in
      let v2 = (check_cooldown_threshold c pool u v1).0 in
      (safe ≡ some true)
      × HasCooled pool u v1
      × ((check_pool_scaling_threshold c pool u v2).1 ≡ (s, true))

  -- The evaluation permits scaling to a capacity, and the state with its direction, as it is then
  -- persisted, is cleared.
  abbrev pub IsEvaluated :
      WorkerPool → List String → ScalingState → W → ClusterCapacity F → ScalingState → Type 0
  IsEvaluated pool jobs s w found s' =
      let (v, reply) = evaluate_pool_scaling fl n pool jobs w in
      let (v', (u, _)) =
        persist_state c (record s { scaling_direction = found.scaling_direction }) v in
      (reply ≡ evaluated found true) × IsCleared pool u v' s'

  gate_requests-permitted :
      (pool : WorkerPool) (capacity found : ClusterCapacity F) (s s' : ScalingState) (w : W)
      → (gate_requests c notifiers fl n m key_root pool capacity s w).1 ≡ permitted s' found
      → (found ≡ capacity) × ((check_pool_scaling_threshold c pool s w).1 ≡ (s', true))
  unfolding gate_requests
  gate_requests-permitted pool capacity found s s' w h =
      go (check_pool_scaling_threshold c pool s w).1.0 (check_pool_scaling_threshold c pool s w).1.1
        refl h
    where
      go :
          (u : ScalingState) (b : Bool)
          → (check_pool_scaling_threshold c pool s w).1 ≡ (u, b)
          → (if b then permitted u capacity else stopped u) ≡ permitted s' found
          → (found ≡ capacity) × ((check_pool_scaling_threshold c pool s w).1 ≡ (s', true))
      go u true e h = (cc, cc)
      go u false e h = absurd (ground arith)

  gate_cooldown-permitted :
      (pool : WorkerPool) (capacity found : ClusterCapacity F) (s s' : ScalingState) (w : W)
      → (gate_cooldown c notifiers fl n m key_root pool capacity s w).1 ≡ permitted s' found
      → (found ≡ capacity)
        × HasCooled pool s w
        × ((check_pool_scaling_threshold c pool s (check_cooldown_threshold c pool s w).0).1
            ≡ (s', true))
  unfolding gate_cooldown
  gate_cooldown-permitted pool capacity found s s' w h =
      elim (Bool-cases (check_cooldown_threshold c pool s w).1) [
        | inl e ↦
            let (same, passed) =
              gate_requests-permitted pool capacity found s s'
                (check_cooldown_threshold c pool s w).0 (rw (e, gate_cooldown) at h) in
            (same, check_cooldown_threshold-HasCooled pool s w e, passed)
        | inr e ↦ absurd (ground arith)
      ]

  gate_provider-permitted :
      (pool : WorkerPool) (capacity found : ClusterCapacity F) (s s' : ScalingState) (w : W)
      → (gate_provider c notifiers fl n m key_root pool capacity s w).1 ≡ permitted s' found
      → (found ≡ capacity) × IsCleared pool s w s'
  unfolding gate_provider
  gate_provider-permitted pool capacity found s s' w h =
      elim (Option-cases (m.safety_check pool s w).1) [
        | inl e ↦ absurd (ground arith)
        | inr (safe, e) ↦ elim (Bool-cases safe) [
          | inl on ↦
              let (same, ready, passed) =
                gate_cooldown-permitted pool capacity found s s' (m.safety_check pool s w).0
                  (rw (e, on, gate_provider) at h) in
              (same, (e ∙ ap some on, ready, passed))
          | inr off ↦ absurd (ground arith)
        ]
      ]

  gate_evaluation-permitted :
      (pool : WorkerPool) (jobs : List String) (found : ClusterCapacity F) (s s' : ScalingState)
      (w : W)
      → (gate_evaluation c notifiers fl n m key_root pool jobs s w).1 ≡ permitted s' found
      → IsEvaluated pool jobs s w found s'
  unfolding gate_evaluation gate_direction
  gate_evaluation-permitted pool jobs found s s' w h =
      go (evaluate_pool_scaling fl n pool jobs w).1 refl
    where
      go :
          (reply : Evaluation fl)
          → (evaluate_pool_scaling fl n pool jobs w).1 ≡ reply
          → IsEvaluated pool jobs s w found s'
      go panicked e = absurd (ground arith)
      go failed e = absurd (ground arith)
      go (evaluated capacity false) e = absurd (ground arith)
      go (evaluated capacity true) e =
          let x : ScalingState = record s { scaling_direction = capacity.scaling_direction } in
          let v = (evaluate_pool_scaling fl n pool jobs w).0 in
          let (same, cleared) =
            gate_provider-permitted pool capacity found (persist_state c x v).1.0 s'
              (persist_state c x v).0 (rw (e, gate_evaluation) at h) in
          (
            e ∙ ap (λ t. evaluated t true) (sym same),
            subst
                (λ (t : ClusterCapacity F).
                  let (v', (u, _)) =
                    persist_state c (record s { scaling_direction = t.scaling_direction }) v in
                  IsCleared pool u v' s')
                (sym same) cleared,
          )

  -- Where `workerPoolScaling` goes on to act, the state that it read was not in failsafe mode and had
  -- fewer failures than the retry threshold of the pool; the evaluation of the pool, made next,
  -- returned that capacity and permitted it to be scaled; that state with the direction of the
  -- capacity was persisted; and with what was persisted the provider's safety check, the cooldown and
  -- the number of requests all permitted it, one after the other. The state that is read is the
  -- stored one, or a new one where Consul has none or cannot be read.
  pub gate-permitted :
      (pool : WorkerPool) (jobs : List String) (found : ClusterCapacity F) (s' : ScalingState)
      (w : W)
      → (gate c notifiers fl n m key_root pool jobs w).1 ≡ permitted s' found
      → let (w1, s) = read_state c (initial_state key_root pool) true w in
        (s.failsafe_mode ≡ false)
        × (s.failure_count <ℤ pool.retry_threshold)
        × IsEvaluated pool jobs s w1 found s'
  unfolding gate
  gate-permitted pool jobs found s' w h =
      let r = read_state c (initial_state key_root pool) true w in
      let message = failure_message pool in
      let checked = failsafe_check c notifiers r.1 pool.retry_threshold message r.0 in
      elim (Bool-cases checked.1.1) [
        | inl e ↦
            let (off, below) =
              (failsafe_check_iff c notifiers r.1 pool.retry_threshold message r.0).0 e in
            let same =
              (failsafe_check_state c notifiers r.1 pool.retry_threshold message r.0).1 e in
            (
              off,
              below,
              gate_evaluation-permitted pool jobs found r.1 s' r.0 (rw (same, gate) at h),
            )
        | inr e ↦ absurd (ground arith)
      ]

-- ===== src/Scaling.antt =====
-- replicator/cluster_scaling.go: one evaluation of a worker pool, from the stored state to the call of
-- the scaling provider. Logging and metrics are left out. `none` is a panic.
pub mod Requests
pub mod Gates
pub mod Effects
pub mod Tripped
pub mod Kept
pub mod Room
use replicator.Base.{
  ℕ, String, ◌<>◌, Bool, true, false, not, ◌&&◌, ◌||◌, Option, none, some, List, [], ◌∷◌, ◌++◌,
  if◌then◌else◌, ◌==◌, string_eq, nat_eq, M, pure, ◌>>=◌, ◌>>◌,
}
use replicator.Base.Dict.{lookup, insert}
use replicator.Base.Int.{ℤ, pos, ltz, eqz, add_int, mul_int, ◌+ℤ◌}
use replicator.Floats.{Floats}
use replicator.Structs.{
  ScalingState, new_scaling_state, Direction, inward, out, WorkerPool, NodeRegistry,
  ClusterCapacity, second,
}
use replicator.World.{Consul, Notifier, FailureMessage}
use replicator.State.{persist_state, read_state}
use replicator.Failsafe.{failsafe_check, cluster_type}
use replicator.Capacity.{NomadCapacity}
use replicator.Capacity.Limits.{
  Evaluation, panicked, failed, evaluated, evaluate_pool_scaling, least_allocated_node,
}

-- The interface `ScalingProvider`, and `DrainNode` of the Nomad client. The state of the pool is
-- passed beside the pool; `none` is a panic.
pub record Machines (W : Type 0) : Type 0 where
  pub safety_check : WorkerPool → ScalingState → M W (Option Bool)
  -- The state, and whether there was an error.
  pub scale : WorkerPool → ScalingState → NodeRegistry → M W (Option (ScalingState × Bool))
  -- `true` is an error.
  pub drain_node : String → M W Bool

-- The `switch` of `checkPoolScalingThreshold`: the state and whether the threshold is met.
unfoldable pub count_request : ℤ → ScalingState → ScalingState × Bool
count_request threshold s = elim s.scaling_direction [
  | inward ↦
      let n = add_int s.scale_in_requests (pos 1) in
      if eqz n threshold
      then (record s { scale_in_requests = pos 0; scale_out_requests = pos 0 }, true)
      else (record s { scale_in_requests = n; scale_out_requests = pos 0 }, false)
  | out ↦
      let n = add_int s.scale_out_requests (pos 1) in
      if eqz n threshold
      then (record s { scale_in_requests = pos 0; scale_out_requests = pos 0 }, true)
      else (record s { scale_in_requests = pos 0; scale_out_requests = n }, false)
  | _ ↦ (record s { scale_in_requests = pos 0; scale_out_requests = pos 0 }, false)
]

module _ {W B : Type 0} (c : Consul W B) where
  -- `checkPoolScalingThreshold`
  unfoldable pub check_pool_scaling_threshold :
      WorkerPool → ScalingState → M W (ScalingState × Bool)
  unfolding count_request
  check_pool_scaling_threshold pool s = do
    let counted = count_request pool.scaling_threshold s
    r ← persist_state c counted.0
    pure (r.0, if r.1 then false else counted.1)

  -- `checkCooldownThreshold`
  unfoldable pub check_cooldown_threshold : WorkerPool → ScalingState → M W Bool
  check_cooldown_threshold pool s = if s.last_scaling_event == 0 then pure true else do
    now ← c.now
    pure (not (ltz (pos now) (pos s.last_scaling_event +ℤ mul_int pool.cooldown (pos second))))

-- How far `workerPoolScaling` gets before it acts.
pub data Gate (F : Type 0) : Type 0 where
  crashed : Gate F
  stopped : ScalingState → Gate F
  permitted : ScalingState → ClusterCapacity F → Gate F

-- The new state object of `workerPoolScaling`.
unfoldable pub initial_state : String → WorkerPool → ScalingState
initial_state key_root pool =
    new_scaling_state pool.name cluster_type (key_root <> "/state/nodes/" <> pool.name)

unfoldable pub failure_message : WorkerPool → FailureMessage
failure_message pool = record {
  alert_uid = pool.notification_uid;
  cluster_identifier = "";
  reason = "";
  resource_id = pool.name;
  resource_type = cluster_type;
  state_path = "";
}

module _ {W B F : Type 0} (c : Consul W B) (notifiers : List (Notifier W)) (fl : Floats F)
    (n : NomadCapacity W) (m : Machines W) (key_root : String) where
  unfoldable pub gate_requests : WorkerPool → ClusterCapacity F → ScalingState → M W (Gate F)
  gate_requests pool capacity s = do
    r ← check_pool_scaling_threshold c pool s
    pure (if r.1 then permitted r.0 capacity else stopped r.0)

  unfoldable pub gate_cooldown : WorkerPool → ClusterCapacity F → ScalingState → M W (Gate F)
  unfolding gate_requests
  gate_cooldown pool capacity s w =
      let (w', ready) = check_cooldown_threshold c pool s w in
      if ready then gate_requests pool capacity s w' else (w', stopped s)

  unfoldable pub gate_provider : WorkerPool → ClusterCapacity F → ScalingState → M W (Gate F)
  unfolding gate_cooldown
  gate_provider pool capacity s w =
      let (w', reply) = m.safety_check pool s w in
      elim reply [
        | none ↦ (w', crashed)
        | some safe ↦ if safe then gate_cooldown pool capacity s w' else (w', stopped s)
      ]

  unfoldable pub gate_direction : WorkerPool → ClusterCapacity F → ScalingState → M W (Gate F)
  unfolding gate_provider
  gate_direction pool capacity s = do
    r ← persist_state c (record s { scaling_direction = capacity.scaling_direction })
    gate_provider pool capacity r.0

  unfoldable pub gate_evaluation : WorkerPool → List String → ScalingState → M W (Gate F)
  unfolding gate_direction
  gate_evaluation pool jobs s w =
      let (w', reply) = evaluate_pool_scaling fl n pool jobs w in
      elim reply [
        | panicked ↦ (w', crashed)
        | failed ↦ (w', stopped s)
        | evaluated capacity scale ↦
            if scale then gate_direction pool capacity s w' else (w', stopped s)
      ]

  -- What precedes the scaling operation in `workerPoolScaling`.
  unfoldable pub gate : WorkerPool → List String → M W (Gate F)
  unfolding gate_evaluation initial_state failure_message
  gate pool jobs w =
      let (w1, s) = read_state c (initial_state key_root pool) true w in
      let (w2, (s', passing)) =
        failsafe_check c notifiers s pool.retry_threshold (failure_message pool) w1 in
      if passing then gate_evaluation pool jobs s' w2 else (w2, stopped s')

  -- `Scale`, where the pool keeps the state and the error is only logged.
  scale_pool : WorkerPool → NodeRegistry → ScalingState → M W (Option ScalingState)
  scale_pool pool r s w =
      let (w', reply) = m.scale pool s r w in
      (w', elim reply [ none ↦ none | some (s', e) ↦ some s' ])

  -- The node is drained, and unless that fails the pool is scaled.
  drain_and_scale : WorkerPool → NodeRegistry → String → ScalingState → M W (Option ScalingState)
  unfolding scale_pool
  drain_and_scale pool r node s w =
      let (w', refused) = m.drain_node node w in
      if refused then (w', some s) else scale_pool pool r s w'

  -- The case of a scale-in.
  unfoldable pub scale_in_pool :
      WorkerPool → NodeRegistry → ClusterCapacity F → ScalingState → M W (Option ScalingState)
  unfolding drain_and_scale
  scale_in_pool pool r capacity s w =
      let (w', (node, address)) = least_allocated_node fl n capacity pool.protected_node w in
      if address == "" || node == ""
      then (w', some s)
      else drain_and_scale pool r node
          (record s { eligible_nodes = s.eligible_nodes ++ (address ∷ []) }) w'

  -- What follows in `workerPoolScaling`.
  unfoldable pub act :
      WorkerPool → NodeRegistry → ClusterCapacity F → ScalingState → M W (Option ScalingState)
  unfolding scale_in_pool
  act pool r capacity s w = elim capacity.scaling_direction [
    | out ↦ scale_pool pool r s w
    | inward ↦ scale_in_pool pool r capacity s w
    | _ ↦ (w, some s)
  ]

  unfoldable pub pass_gate : WorkerPool → NodeRegistry → Gate F → M W (Option ScalingState)
  unfolding act
  pass_gate pool r crashed w = (w, none)
  pass_gate pool r (stopped s) w = (w, some s)
  pass_gate pool r (permitted s capacity) w = act pool r capacity s w

  -- `workerPoolScaling` for one name of the channel, over the names of the jobs with a policy. The
  -- pool is shared with the registry, so what is written to its state stands in the registry at once
  -- and the write at the end of the function changes nothing.
  unfoldable pub worker_pool_scaling :
      List String → String → NodeRegistry → M W (Option NodeRegistry)
  unfolding gate pass_gate
  worker_pool_scaling jobs name r w = elim (lookup name r.worker_pools) [
    | none ↦ (w, none)
    | some pool ↦
        let (w1, reply) = gate pool jobs w in
        let (w2, state) = pass_gate pool r reply w1 in
        (
          w2,
          elim state [
            | none ↦ none
            | some s ↦ some (record r {
              worker_pools = insert name (record pool { state = some s }) r.worker_pools;
            })
          ],
        )
  ]

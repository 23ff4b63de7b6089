-- ===== src/Scaling/Room.antt =====
-- The capacity that is left when `workerPoolScaling` removes a node.
use replicator.Base.{ℕ, suc, ◌+◌, ◌*◌, ◌/◌, ◌<◌, String, ◌≡◌, ◌⊎◌, List, true}
use replicator.Base.Int.{pos}
use replicator.Floats.{Floats}
use replicator.Structs.{ScalingState, WorkerPool, ClusterCapacity, inward, processor, memory}
use replicator.World.{Consul, Notifier}
use replicator.Capacity.{NomadCapacity}
use replicator.Capacity.Limits.{amount}
use replicator.Capacity.Safety.{decide_pool_scaling-room, evaluate_pool_scaling-decides}
use replicator.State.{read_state}
use replicator.Scaling.{Machines, permitted, gate, initial_state}
use replicator.Scaling.Gates.{gate-permitted}

module _ {W B F : Type 0} (c : Consul W B) (notifiers : List (Notifier W)) (fl : Floats F)
    (n : NomadCapacity W) (m : Machines W) (key_root : String) where
  -- `workerPoolScaling` goes on to remove a node for the sake of CPU or memory only if what is used
  -- and the reserve, with as many average nodes as the fault tolerance and one more, are less than
  -- the total capacity of the pool. The amounts are not negative and 64 bits hold them.
  pub gate-room :
      (pool : WorkerPool) (jobs : List String) (found : ClusterCapacity F) (s : ScalingState)
      (w : W) (used alloc total k tolerance : ℕ)
      → (gate c notifiers fl n m key_root pool jobs w).1 ≡ permitted s found
      → found.scaling_direction ≡ inward
      → (found.scaling_metric.type ≡ processor) ⊎ (found.scaling_metric.type ≡ memory)
      → amount found.scaling_metric.type found.used_capacity ≡ pos used
      → amount found.scaling_metric.type found.task_allocation ≡ pos alloc
      → amount found.scaling_metric.type found.total_capacity ≡ pos total
      → found.node_count ≡ pos (suc k)
      → pool.fault_tolerance ≡ pos tolerance
      → total < 9223372036854775808
      → alloc + (total / suc k) * suc tolerance < 9223372036854775808
      → used + alloc + (total / suc k) * suc tolerance < total
  gate-room pool jobs found s w used alloc total k tolerance h inw metric hu ha ht hn hf b b' =
      let r = read_state c (initial_state key_root pool) true w in
      let (_, _, (scale, _)) = gate-permitted c notifiers fl n m key_root pool jobs found s w h in
      let (measured, decided) = evaluate_pool_scaling-decides fl n pool jobs r.0 found true scale in
      decide_pool_scaling-room fl measured found pool used alloc total k tolerance decided inw
        metric hu ha ht hn hf b b'

-- ===== src/Capacity.antt =====
-- client/cluster_scaling.go, and MostUtilizedResource, LeastAllocatedNode and
-- MaxAllowedClusterUtilization of client/nomad.go: what a worker pool has, what is used, and whether
-- it should be scaled. Nomad's API and `float64` are parameters.
pub mod Limits
pub mod Decision
pub mod Safety
pub mod Least
pub mod Lowest
pub mod Idle
pub mod Picked
pub mod Totals
pub mod Progress
pub mod Kept
use replicator.Base.{
  ℕ, String, Bool, true, false, not, Option, none, some, List, [], ◌∷◌, ◌++◌, if◌then◌else◌, ◌==◌,
  ◌&&◌, ◌||◌, string_eq, Result, ok, err, M, pure, ◌>>=◌, ◌>>◌,
}
use replicator.Base.Dict.{Dict, lookup, keys, values}
use replicator.Base.Int.{ℤ, pos, ltz, lez, add_int, sub_int, mul_int, div_int}
use replicator.Floats.{Floats}
use replicator.Structs.{
  Node, WorkerPool, AllocationResources, NodeAllocation, ClusterCapacity, ScalingMetric, Metric,
  none_used, disk, memory, processor, Direction, out, inward, none_wanted, no_resources,
}

-- `nomad.Allocation`, as far as it is read.
pub record Allocation : Type 0 where
  pub node_id : String
  pub client_status : String
  pub desired_status : String
  pub cpu : ℤ
  pub memory_mb : ℤ
  pub disk_mb : ℤ

-- The resources of a task of a job.
pub record TaskResources : Type 0 where
  pub cpu : ℤ
  pub memory_mb : ℤ
  pub disk_mb : ℤ

pub record NomadCapacity (W : Type 0) : Type 0 where
  -- `Nodes().Allocations`
  pub node_allocations : String → M W (Result (List Allocation))
  -- `Jobs().Allocations`
  pub job_allocations : String → M W (Result (List Allocation))
  -- `Jobs().Info`: the tasks of each task group.
  pub job_tasks : String → M W (Result (List (List TaskResources)))
  -- `Nodes().Info`: the address of the node, empty where the attribute is absent.
  pub node_address : String → M W (Result String)

abbrev pub status_running : String
status_running = "running"

abbrev pub desired_run : String
desired_run = "run"

module _ {F : Type 0} (fl : Floats F) where
  abbrev pub add_resources : AllocationResources F → ℤ → ℤ → ℤ → AllocationResources F
  add_resources r cpu mem dsk = record r {
    cpu_mhz = add_int r.cpu_mhz cpu;
    memory_mb = add_int r.memory_mb mem;
    disk_mb = add_int r.disk_mb dsk;
  }

  -- The body of the loop of `calculatePoolCapacity`.
  abbrev pub count_node : ClusterCapacity F → Node → ClusterCapacity F
  count_node c node = record c {
    node_count = add_int c.node_count (pos 1);
    node_list = c.node_list ++ (node.id ∷ []);
    total_capacity = add_resources c.total_capacity node.cpu node.memory_mb node.disk_mb;
  }

  unfoldable pub count_nodes : ClusterCapacity F → List Node → ClusterCapacity F
  count_nodes c [] = c
  count_nodes c (node ∷ nodes) = count_nodes (count_node c node) nodes

  -- `calculatePoolCapacity`
  unfoldable pub calculate_pool_capacity : ClusterCapacity F → WorkerPool → ClusterCapacity F
  unfolding count_nodes
  calculate_pool_capacity c pool = count_nodes c (values pool.nodes)

  -- The running allocations added up, on top of what was used.
  unfoldable pub consumed : AllocationResources F → List Allocation → AllocationResources F
  consumed r [] = r
  consumed r (a ∷ allocations) =
      consumed
        (if a.client_status == status_running && a.desired_status == desired_run
          then add_resources r a.cpu a.memory_mb a.disk_mb
          else r)
        allocations

  unfoldable pub consume_nodes :
      {W : Type 0}
      → NomadCapacity W
      → List String
      → ClusterCapacity F
      → M W (Result (ClusterCapacity F))
  unfolding consumed
  consume_nodes n [] c w = (w, ok c)
  consume_nodes n (node ∷ nodes) c w =
      let (w', reply) = n.node_allocations node w in
      elim reply [
        | err ↦ (w', err)
        | ok allocations ↦
            consume_nodes n nodes
              (record c {
                used_capacity = consumed c.used_capacity allocations;
                node_allocations =
                    c.node_allocations
                    ++ (record {
                      node_id = node;
                      used_capacity = consumed (no_resources F fl.zero) allocations;
                    }
                        ∷ []);
              })
              w'
      ]

  node_share : AllocationResources F → NodeAllocation F → NodeAllocation F
  node_share used node =
      let own = node.used_capacity in
      record node {
        used_capacity = record own {
          cpu_percent = fl.percent_of own.cpu_mhz used.cpu_mhz;
          disk_percent = fl.percent_of own.disk_mb used.disk_mb;
          memory_percent = fl.percent_of own.memory_mb used.memory_mb;
        };
      }

  pub node_shares : AllocationResources F → List (NodeAllocation F) → List (NodeAllocation F)
  unfolding node_share
  node_shares used [] = []
  node_shares used (node ∷ nodes) = node_share used node ∷ node_shares used nodes

  -- `CalculateUsage`
  unfoldable pub calculate_usage : ClusterCapacity F → ClusterCapacity F
  unfolding node_shares
  calculate_usage c =
      let used = c.used_capacity in
      let total = c.total_capacity in
      record c {
        used_capacity = record used {
          cpu_percent = fl.percent_of used.cpu_mhz total.cpu_mhz;
          disk_percent = fl.percent_of used.disk_mb total.disk_mb;
          memory_percent = fl.percent_of used.memory_mb total.memory_mb;
        };
        node_allocations = node_shares used c.node_allocations;
      }

  -- `calculatePoolConsumed`. After an error the capacity object is dropped by every caller.
  unfoldable pub calculate_pool_consumed :
      {W : Type 0}
      → NomadCapacity W
      → ClusterCapacity F
      → WorkerPool
      → M W (Result (ClusterCapacity F))
  unfolding consume_nodes calculate_usage
  calculate_pool_consumed n c pool = do
    r ← consume_nodes n (keys pool.nodes) c
    pure (elim r [ err ↦ err | ok c' ↦ ok (calculate_usage c') ])

-- Whether a running allocation of the job lies on a node of the pool.
placed : WorkerPool → List Allocation → Bool
placed pool [] = false
placed pool (a ∷ allocations) =
    let rest = placed pool allocations in
    if not (a.desired_status == desired_run && a.client_status == status_running)
    then rest
    else elim (lookup a.node_id pool.nodes) [ none ↦ rest | some node ↦ true ]

-- `checkJobPlacement`
unfoldable pub check_job_placement : {W : Type 0} → NomadCapacity W → String → WorkerPool → M W Bool
unfolding placed
check_job_placement n job pool = do
  reply ← n.job_allocations job
  pure (elim reply [ err ↦ false | ok allocations ↦ placed pool allocations ])

module _ {F : Type 0} (fl : Floats F) where
  reserve_tasks : AllocationResources F → List TaskResources → AllocationResources F
  reserve_tasks r [] = r
  reserve_tasks r (t ∷ tasks) = reserve_tasks (add_resources fl r t.cpu t.memory_mb t.disk_mb) tasks

  pub reserve_groups : AllocationResources F → List (List TaskResources) → AllocationResources F
  unfolding reserve_tasks
  reserve_groups r [] = r
  reserve_groups r (tasks ∷ groups) = reserve_groups (reserve_tasks r tasks) groups

  unfoldable pub reserve_job :
      {W : Type 0}
      → NomadCapacity W
      → ClusterCapacity F
      → String
      → Bool
      → M W (Result (ClusterCapacity F))
  unfolding reserve_groups
  reserve_job n c job false = pure (ok c)
  reserve_job n c job true = do
    reply ← n.job_tasks job
    pure (elim reply [
      | err ↦ err
      | ok groups ↦ ok (record c { task_allocation = reserve_groups c.task_allocation groups })
    ])

  -- `calculateScalingReserve`, over the names of the jobs with a policy.
  unfoldable pub calculate_scaling_reserve :
      {W : Type 0}
      → NomadCapacity W
      → WorkerPool
      → List String
      → ClusterCapacity F
      → M W (Result (ClusterCapacity F))
  unfolding reserve_job check_job_placement
  calculate_scaling_reserve n pool [] c w = (w, ok c)
  calculate_scaling_reserve n pool (job ∷ jobs) c w =
      let (w', here) = check_job_placement n job pool w in
      let (w'', reply) = reserve_job n c job here w' in
      elim reply [ err ↦ (w'', err) | ok c' ↦ calculate_scaling_reserve n pool jobs c' w'' ]

  -- `helper.Max` at three values.
  unfoldable pub max_of : F → F → F → F
  max_of a b c = let m = if fl.lt a b then b else a in if fl.lt m c then c else m

  -- The `switch` of `MostUtilizedResource`.
  metric_of : F → AllocationResources F → Metric → Metric
  metric_of max used old =
      if fl.eq max fl.zero
      then none_used
      else if fl.eq max used.cpu_percent
      then processor
      else if fl.eq max used.disk_percent
      then disk
      else if fl.eq max used.memory_percent
      then memory
      else old

  -- `MostUtilizedResource`
  unfoldable pub most_utilized_resource : ClusterCapacity F → ClusterCapacity F
  unfolding max_of metric_of
  most_utilized_resource c =
      let used = c.used_capacity in
      record c {
        scaling_metric = record c.scaling_metric {
          type =
              metric_of (max_of used.cpu_percent used.memory_percent used.disk_percent) used
                c.scaling_metric.type;
        };
      }

-- ===== src/Structs/Capacity.antt =====
-- The capacity objects of replicator/structs/nomad.go. `F` is the type of Go's `float64`.
use replicator.Base.{String, List, []}
use replicator.Base.Int.{ℤ, pos}
use replicator.Structs.State.{Direction}

-- The strings "None", "Disk", "Memory" and "CPU", and the empty string of a new object.
pub data Metric : Type 0 where
  none_used disk memory processor unset : Metric

module _ (F : Type 0) where
  pub record AllocationResources : Type 0 where
    pub memory_mb : ℤ
    pub cpu_mhz : ℤ
    pub disk_mb : ℤ
    pub memory_percent : F
    pub cpu_percent : F
    pub disk_percent : F

  abbrev pub no_resources : F → AllocationResources
  no_resources zero = record {
    memory_mb = pos 0;
    cpu_mhz = pos 0;
    disk_mb = pos 0;
    memory_percent = zero;
    cpu_percent = zero;
    disk_percent = zero;
  }

  pub record NodeAllocation : Type 0 where
    pub node_id : String
    pub used_capacity : AllocationResources

  pub record ScalingMetric : Type 0 where
    pub type : Metric
    pub capacity : ℤ
    pub utilization : ℤ

  pub record ClusterCapacity : Type 0 where
    pub node_count : ℤ
    pub scaling_metric : ScalingMetric
    pub max_allowed_utilization : ℤ
    pub total_capacity : AllocationResources
    pub used_capacity : AllocationResources
    pub task_allocation : AllocationResources
    pub node_list : List String
    pub node_allocations : List NodeAllocation
    pub scaling_direction : Direction

  -- `&structs.ClusterCapacity{}`.
  unfoldable pub new_cluster_capacity : F → ClusterCapacity
  new_cluster_capacity zero = record {
    node_count = pos 0;
    scaling_metric = record { type = Metric.unset; capacity = pos 0; utilization = pos 0 };
    max_allowed_utilization = pos 0;
    total_capacity = no_resources zero;
    used_capacity = no_resources zero;
    task_allocation = no_resources zero;
    node_list = [];
    node_allocations = [];
    scaling_direction = Direction.unset;
  }

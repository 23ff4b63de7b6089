-- ===== src/Structs/Policy.antt =====
-- replicator/structs/job_scaling.go. `F` is the type of Go's `float64`.
use replicator.Base.{String, Bool, false}
use replicator.Base.Int.{ℤ, pos}
use replicator.Structs.State.{Direction, unset}
use replicator.Structs.Capacity.{AllocationResources, no_resources, Metric}

module _ (F : Type 0) where
  -- `tasks` is the `Resources` of the field `Tasks`.
  pub record GroupScalingPolicy : Type 0 where
    pub cooldown : ℤ
    pub enabled : Bool
    pub retry_threshold : ℤ
    pub group_name : String
    pub max : ℤ
    pub min : ℤ
    pub scale_direction : Direction
    pub scale_in_cpu : F
    pub scale_in_mem : F
    pub scaling_metric : Metric
    pub scale_out_cpu : F
    pub scale_out_mem : F
    pub tasks : AllocationResources F
    pub uid : String

  -- `NewGroupScalingPolicy`, at the zero of `float64`.
  unfoldable pub new_group_scaling_policy : F → GroupScalingPolicy
  new_group_scaling_policy zero = record {
    cooldown = pos 60;
    enabled = false;
    retry_threshold = pos 1;
    group_name = "";
    max = pos 0;
    min = pos 0;
    scale_direction = unset;
    scale_in_cpu = zero;
    scale_in_mem = zero;
    scaling_metric = Metric.unset;
    scale_out_cpu = zero;
    scale_out_mem = zero;
    tasks = no_resources F zero;
    uid = "";
  }

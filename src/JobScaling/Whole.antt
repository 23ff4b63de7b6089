-- ===== src/JobScaling/Whole.antt =====
-- A whole round of job scaling, from the evaluation of a job to the jobs that are submitted.
use replicator.Base.{String, true, List, ◌≡◌, string_eq, ◌⊎◌}
use replicator.Floats.{Floats}
use replicator.Structs.{GroupScalingPolicy, Job, TaskGroup, value, out, inward}
use replicator.World.{Consul, Notifier}
use replicator.Failsafe.Kept.{IsStable}
use replicator.JobScaling.{NomadJobs}
use replicator.JobScaling.Bounds.{IsBounded, AreResized}
use replicator.JobScaling.Safety.{IsKept}
use replicator.JobScaling.Evaluate.{NomadAllocations}
use replicator.JobScaling.Measured.{IsRead, measured}

-- A property of the world that every call but the submission of a job keeps.
pub record IsInert {W B A : Type 0} (c : Consul W B) (notifiers : List (Notifier W))
    (n : NomadJobs W) (a : NomadAllocations W A) (P : W → Type 0) : Type 0 where
  pub stable : IsStable c notifiers P
  pub kept : IsKept c n P
  pub read : IsRead n a P

module _ {W F : Type 0} (n : NomadJobs W) (P : W → Type 0) where
  -- Submitting the job with the group of a policy scaled within its bounds keeps a property, whatever
  -- was measured, if the policy is enabled and the measurements ask for scaling out or in.
  abbrev pub IsAllowed : String → GroupScalingPolicy F → Type 0
  IsAllowed name q =
      IsBounded q
      × ((p : GroupScalingPolicy F) (job : Job) (groups : List TaskGroup) (w : W)
          → p ≡ measured p q
          → q.enabled ≡ true
          → (p.scale_direction ≡ out) ⊎ (p.scale_direction ≡ inward)
          → (n.job_info name w).1 ≡ value job
          → AreResized p job.task_groups groups
          → P (n.job_info name w).0
          → P (n.register_job (record job { task_groups = groups }) (n.job_info name w).0).0)

-- ===== src/Examples/Jobs.antt =====
-- Job scaling at concrete inputs: a job with two groups, one of them with a policy.
use replicator.Base.{
  ℕ, String, true, false, Option, some, none, List, [], ◌∷◌, ◌≡◌, ◌↔◌, refl, sym, ap, ◌∙◌, ok, err,
  All, arith, inl,
}
use mathlib.Core.Path.{subst}
use replicator.Base.Int.{pos, IsInt, ◌≤ℤ◌, ◌+ℤ◌, ◌-ℤ◌}
use replicator.Structs.{
  ScalingState, new_scaling_state, Direction, out, inward, none_wanted, unset, GroupScalingPolicy,
  new_group_scaling_policy, Job, TaskGroup, value, Time,
}
use replicator.World.{Consul, absent}
use replicator.JobScaling.{NomadJobs, Patience, constrained, resize}
use replicator.State.{read_state}
use replicator.JobScaling.Bounds.{HasRoom, step, AreResized, resize_iff, resize-AreResized}
use replicator.JobScaling.Evaluate.{NomadAllocations}
use replicator.JobScaling.Gates.{scale_group_keeps}
use replicator.JobScaling.Rounds.{JobScalingPolicies, initial_group_state, scale_group}
use replicator.JobScaling.Safety.{job_group_scale_keeps}
use replicator.JobScaling.Whole.{IsInert, IsAllowed}

-- A world that remembers the jobs that were submitted.
pub record Cluster : Type 0 where
  pub clock : Time
  pub submitted : List Job

abbrev cluster : Cluster
cluster = record { clock = 100000000000; submitted = [] }

abbrev store : Consul Cluster ScalingState
store = record {
  now = λ w. (w, w.clock);
  kv_get = λ k w. (w, absent);
  kv_put = λ k v w. (w, false);
  marshal = λ s. s;
  unmarshal = λ s t. (s, false);
}

abbrev api_group : TaskGroup
api_group = record { name = "api"; count = pos 3; updates = true; meta = []; tasks = [] }

abbrev pub api_job : Job
api_job = record { id = "web"; type = "service"; status = "running"; task_groups = api_group ∷ [] }

abbrev jobs : NomadJobs Cluster
jobs = record {
  job_info = λ name w. (w, value api_job);
  register_job = λ job w. (record w { submitted = job ∷ w.submitted }, ok "evaluation");
  evaluation_info = λ id w. (w, ok "deployment");
  deployment_info = λ id index w. (w, ok ("successful", 7));
  latest_deployment = λ name w. (w, ok none);
}

abbrev allocations : NomadAllocations Cluster ℕ
allocations = record {
  allocations = λ name w. (w, value []);
  allocation_info = λ id w. (w, ok none);
  allocation_stats = λ alloc w. (w, err);
}

abbrev pub patience : Patience
patience = record { evaluation_ticks = 60; deployment_ticks = 1800 }

abbrev pub policy_named : String → GroupScalingPolicy (Option ℕ)
policy_named name = record (new_group_scaling_policy (Option ℕ) (some 0)) {
  group_name = name;
  enabled = true;
  max = pos 5;
  min = pos 1;
  scale_out_cpu = some 80;
  scale_out_mem = some 80;
  scale_direction = out;
}

abbrev pub api_policy : GroupScalingPolicy (Option ℕ)
api_policy = policy_named "api"

abbrev pub policies : JobScalingPolicies (Option ℕ)
policies = record {
  last_change_index = 3;
  policies = ("web", api_policy ∷ policy_named "cache" ∷ []) ∷ [];
}

-- No submitted group has more than five tasks.
abbrev IsSmall : List Job → Type 0
IsSmall = All (λ job. All (λ g. g.count ≤ℤ pos 5) job.task_groups)

api_step :
    (p : GroupScalingPolicy (Option ℕ)) (groups : List TaskGroup)
    → p.group_name ≡ "api"
    → p.max ≡ pos 5
    → AreResized p (api_group ∷ []) groups
    → All (λ g. g.count ≤ℤ pos 5) groups
unfolding ◌+ℤ◌ ◌-ℤ◌
api_step p [] named bound r = absurd r
api_step p (g ∷ h ∷ hs) named bound r = absurd r.1
api_step p (g ∷ []) named bound r = (go p.scale_direction (r.0.0 (sym named)).0, tt)
  where
    stepped : (d : Direction) → step d (pos 3) ≤ℤ pos 5
    stepped out = omega arith
    stepped inward = omega arith
    stepped none_wanted = omega arith
    stepped unset = omega arith

    go : (d : Direction) → g ≡ record api_group { count = step d (pos 3) } → g.count ≤ℤ pos 5
    go d e = subst (λ (h : TaskGroup). h.count ≤ℤ pos 5) (sym e) (stepped d)

pub inert : IsInert store [] jobs allocations (λ w. IsSmall w.submitted)
inert = record {
  stable = record { now = λ w h. h; kv_get = λ key w h. h; kv_put = λ key bytes w h. h; send = tt };
  kept = record {
    now = λ w h. h;
    job_info = λ name w h. h;
    evaluation_info = λ id w h. h;
    deployment_info = λ id index w h. h;
  };
  read = record {
    job_info = λ name w h. h;
    allocations = λ name w h. h;
    allocation_info = λ id w h. h;
    allocation_stats = λ alloc w h. h;
  };
}

value-inj : {A : Type 0} (a b : A) → value a ≡ value b → a ≡ b
value-inj a b h = cc

small_counts :
    (w : Cluster) (job : Job)
    → (jobs.job_info "web" w).1 ≡ value job
    → All (λ g. IsInt g.count) job.task_groups
small_counts w job e =
    subst (λ (j : Job). All (λ g. IsInt g.count) j.task_groups) (value-inj api_job job e)
      ((omega arith, omega arith), tt)

allowed :
    (q : GroupScalingPolicy (Option ℕ))
    → q.group_name ≡ "api"
    → q.max ≡ pos 5
    → q.min ≡ pos 1
    → IsAllowed jobs (λ w. IsSmall w.submitted) "web" q
allowed q named top bottom = (
  (
    subst IsInt (sym top) (omega arith, omega arith),
    subst IsInt (sym bottom) (omega arith, omega arith),
  ),
  λ p job groups w same on way info resized kept. (
    api_step p groups (ap (λ r. r.group_name) same ∙ named) (ap (λ r. r.max) same ∙ top) (
        subst (λ (j : Job). AreResized p j.task_groups groups) (sym (value-inj api_job job info))
          resized),
    kept,
  ),
)

abbrev one_policy : JobScalingPolicies (Option ℕ)
one_policy = record policies { policies = ("web", api_policy ∷ []) ∷ [] }

scale_group_keeps_example :
    IsSmall
      (scale_group store [] jobs patience "replicator/config" "web" api_policy cluster).submitted
unfolding new_group_scaling_policy
scale_group_keeps_example =
    scale_group_keeps store [] jobs patience "replicator/config" (λ w. IsSmall w.submitted)
      inert.stable "web" api_policy cluster
      (λ passed h.
        let (w, s) =
          read_state store (initial_group_state "replicator/config" "web" api_policy) true
            cluster in
        job_group_scale_keeps store jobs patience (λ w. IsSmall w.submitted) inert.kept "web"
          api_policy s w (allowed api_policy refl refl refl).0 (small_counts w)
          (λ job groups info resized kept.
            (allowed api_policy refl refl refl).1 api_policy job groups w refl refl (inl refl) info
              resized kept)
          h)
      tt

abbrev two_groups : List TaskGroup
two_groups = api_group ∷ (record api_group { name = "cache"; count = pos 2 }) ∷ []

abbrev idle : ScalingState
idle = new_scaling_state "api" "job_group" "replicator/config/state/jobs/web/api"

resize-AreResized_example : AreResized api_policy two_groups (resize api_policy two_groups idle).0
unfolding resize constrained new_group_scaling_policy
resize-AreResized_example =
    resize-AreResized api_policy two_groups idle
      ((omega arith, omega arith), (omega arith, omega arith))
      ((omega arith, omega arith), ((omega arith, omega arith), tt)) refl

-- Another group at the bound of the policy is enough for nothing to be submitted.
resize_iff_example :
    ((resize api_policy
        (api_group ∷ (record api_group { name = "cache"; count = pos 9 }) ∷ [])
        idle).2
      ≡ true)
    ↔ All
        (λ g. HasRoom api_policy out g.count)
        (api_group ∷ (record api_group { name = "cache"; count = pos 9 }) ∷ [])
resize_iff_example =
    resize_iff api_policy (api_group ∷ (record api_group { name = "cache"; count = pos 9 }) ∷ [])
      idle

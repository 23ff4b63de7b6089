-- ===== src/Policies.antt =====
-- client/job_scaling_policies.go: the policies of the jobs, kept up to date from the jobs that Nomad
-- runs. Nomad's API, `mapstructure`, hashing and the growth of slices are parameters; locks and
-- logging are left out.
mod Slices
pub mod Removal
pub mod Duplicates
pub mod Panics
pub mod Groups
unfoldable pub use Slices.*
use replicator.Base.{
  ℕ, zero, suc, ◌+◌, ◌-◌, String, Bool, true, false, not, ◌&&◌, Option, none, some, List, [], ◌∷◌,
  ◌++◌, if◌then◌else◌, ◌==◌, string_eq, nat_eq, ltb, leb, length, Result, ok, err, M,
}
use replicator.Base.Dict.{Dict, lookup, insert, erase}
use replicator.Helper.{parse_meta_config, has_object_changed}
use replicator.Structs.{
  GroupScalingPolicy, new_group_scaling_policy, Job, TaskGroup, Reply, value, error,
}
use replicator.JobScaling.{NomadJobs}
use replicator.JobScaling.Rounds.{JobScalingPolicies, held_policies, remove_job_scaling_policy}

-- What the code leaves to libraries and to the runtime.
pub record PolicyCodecs (F : Type 0) : Type 0 where
  -- `decoder.Decode`
  pub decode : Dict String String → GroupScalingPolicy F → Result (GroupScalingPolicy F)
  -- The hash of a policy.
  pub hash : GroupScalingPolicy F → Result ℕ
  -- The room that is left when `append` has moved a slice of a length to a new array.
  pub room : ℕ → ℕ

-- The slice of a job in the map while `updateScalingPolicy` ranges over it: its elements, the room
-- that is left in its array, and whether that is still the array that the loop writes to.
pub record Growing (F : Type 0) : Type 0 where
  pub policies : List (GroupScalingPolicy F)
  pub room : ℕ
  pub shared : Bool

module _ {F : Type 0} (codecs : PolicyCodecs F) where
  -- `append(s.Policies[jobName], result)`
  unfoldable pub append_policy : GroupScalingPolicy F → Growing F → Growing F
  append_policy p s = elim s.room [
    | zero ↦ record {
      policies = s.policies ++ (p ∷ []);
      room = codecs.room (length s.policies);
      shared = false;
    }
    | suc room ↦ record s { policies = s.policies ++ (p ∷ []); room = room }
  ]

  -- The body of the loop of `updateScalingPolicy` at an index.
  unfoldable pub update_entry :
      GroupScalingPolicy F → ℕ → GroupScalingPolicy F → Growing F → Growing F
  unfolding append_policy write
  update_entry result i group s =
      if group.group_name == result.group_name
      then (if (has_object_changed codecs.hash result group).0 && s.shared
          then record s { policies = write i result s.policies }
          else s)
      else append_policy result s

  unfoldable pub update_loop :
      GroupScalingPolicy F → ℕ → List (GroupScalingPolicy F) → Growing F → Growing F
  unfolding update_entry
  update_loop result i [] s = s
  update_loop result i (group ∷ groups) s =
      update_loop result (suc i) groups (update_entry result i group s)

  -- The policies of a job after `updateScalingPolicy`, given those before and the room in their array.
  unfoldable pub update_policies :
      GroupScalingPolicy F → ℕ → List (GroupScalingPolicy F) → List (GroupScalingPolicy F)
  unfolding update_loop
  update_policies result room [] = result ∷ []
  update_policies result room (group ∷ groups) =
      (update_loop result 0 (group ∷ groups)
        (record { policies = group ∷ groups; room = room; shared = true })).policies

  -- `updateScalingPolicy`: an error leaves the policies as they were. `nil` is the zero of `float64`.
  unfoldable pub update_scaling_policy :
      F
      → ℕ
      → String
      → String
      → Dict String String
      → JobScalingPolicies F
      → Result (JobScalingPolicies F)
  unfolding update_policies new_group_scaling_policy
  update_scaling_policy nil room job group meta s =
      elim (codecs.decode meta (new_group_scaling_policy F nil)) [
        | err ↦ err
        | ok decoded ↦
            let result : GroupScalingPolicy F = record decoded { group_name = group } in
            ok (record s {
              policies = insert job (update_policies result room (held_policies job s)) s.policies;
            })
      ]

-- The names of policies without those of the task groups.
orphans : List TaskGroup → List String → Option (List String)
unfolding remove_matching
orphans [] names = some names
orphans (g ∷ groups) names = elim (remove_matching (λ name. g.name == name) names) [
  | none ↦ none
  | some names' ↦ orphans groups names'
]

module _ {F : Type 0} where
  -- `removeGroupScalingPolicy`. `none` is a panic.
  unfoldable pub remove_group_scaling_policy :
      String → String → JobScalingPolicies F → Option (JobScalingPolicies F)
  unfolding remove_matching
  remove_group_scaling_policy job group s = elim (lookup job s.policies) [
    | none ↦ some s
    | some held ↦ elim (remove_matching (λ p. p.group_name == group) held) [
      | none ↦ none
      | some [] ↦ some (record s { policies = erase job s.policies })
      | some (p ∷ ps) ↦ some (record s { policies = insert job (p ∷ ps) s.policies })
    ]
  ]

  policy_names : List (GroupScalingPolicy F) → List String
  policy_names [] = []
  policy_names (p ∷ ps) = p.group_name ∷ policy_names ps

  remove_all : String → List String → JobScalingPolicies F → Option (JobScalingPolicies F)
  unfolding remove_group_scaling_policy
  remove_all job [] s = some s
  remove_all job (group ∷ groups) s = elim (remove_group_scaling_policy job group s) [
    | none ↦ none
    | some s' ↦ remove_all job groups s'
  ]

  -- `checkOrphanedGroup`. `none` is a panic.
  unfoldable pub check_orphaned_group :
      String → List TaskGroup → JobScalingPolicies F → Option (JobScalingPolicies F)
  unfolding orphans remove_all policy_names
  check_orphaned_group job groups s = elim (orphans groups (policy_names (held_policies job s))) [
    | none ↦ none
    | some names ↦ remove_all job names s
  ]

abbrev pub required_keys : List String
required_keys =
    "replicator_enabled" ∷ "replicator_min" ∷ "replicator_max" ∷ "replicator_scalein_mem"
    ∷ "replicator_scalein_cpu" ∷ "replicator_scaleout_mem" ∷ "replicator_scaleout_cpu"
    ∷ "replicator_notification_uid" ∷ []

-- A goroutine that `jobScalingPolicyProcessor` or `JobWatcher` starts.
pub data Goroutine : Type 0 where
  check_orphans : String → List TaskGroup → Goroutine
  remove_group : String → String → Goroutine
  update_group : String → TaskGroup → Goroutine
  process_job : String → Goroutine
  remove_job : String → Goroutine

-- The loop of `jobScalingPolicyProcessor`. The closure that updates a policy reads the loop's variable
-- when it runs: `current` gives its value then, from the group at which it was started and those
-- after it.
unfoldable pub process_groups :
    (TaskGroup → List TaskGroup → TaskGroup) → String → List TaskGroup → List Goroutine
process_groups current job [] = []
process_groups current job (g ∷ groups) =
    let rest = process_groups current job groups in
    let missing = length (parse_meta_config g.meta required_keys) in
    if not g.updates
    then rest
    else if missing == length required_keys
    then remove_group job g.name ∷ rest
    else if ltb 0 missing
    then rest
    else update_group job (current g groups) ∷ rest

module _ {W : Type 0} (n : NomadJobs W) where
  -- `jobScalingPolicyProcessor`: the goroutines that it starts. The error of the request is only
  -- logged, so that the job that is then nil is a panic.
  unfoldable pub job_scaling_policy_processor :
      (TaskGroup → List TaskGroup → TaskGroup) → String → M W (Option (List Goroutine))
  unfolding process_groups
  job_scaling_policy_processor current job w =
      let (w', reply) = n.job_info job w in
      (
        w',
        elim reply [
          | error e ↦ none
          | value info ↦
              if info.type == "system"
              then some []
              else if not (info.status == "running")
              then some []
              else some
                  (check_orphans job info.task_groups ∷ process_groups current job info.task_groups)
        ],
      )

-- An entry of Nomad's list of jobs.
pub record JobStub : Type 0 where
  pub id : String
  pub status : String
  pub modify_index : ℕ

-- The loop of `JobWatcher` over the jobs.
unfoldable pub changed_jobs : ℕ → List JobStub → List Goroutine
changed_jobs last [] = []
changed_jobs last (job ∷ jobs) =
    let rest = changed_jobs last jobs in
    if leb job.modify_index last
    then rest
    else if job.status == "running"
    then process_job job.id ∷ rest
    else if job.status == "dead"
    then remove_job job.id ∷ rest
    else rest

-- A round of `JobWatcher` with the answer of Nomad, which is an error or the jobs with the last index:
-- the policies and the goroutines that are started.
unfoldable pub watch_jobs :
    {F : Type 0}
    → Result (List JobStub × ℕ)
    → JobScalingPolicies F
    → JobScalingPolicies F × List Goroutine
unfolding changed_jobs
watch_jobs err s = (s, [])
watch_jobs (ok (jobs, index)) s =
    if leb index s.last_change_index
    then (s, [])
    else (record s { last_change_index = index }, changed_jobs s.last_change_index jobs)

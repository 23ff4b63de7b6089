-- ===== src/JobScaling/Rounds.antt =====
-- replicator/job_scaling.go: a round of scaling over the groups of a job. Logging is left out.
use replicator.Base.{
  ℕ, String, ◌<>◌, Bool, true, false, Option, none, some, List, [], ◌∷◌, if◌then◌else◌, string_eq,
  M, pure, ◌>>=◌,
}
use replicator.Base.Dict.{Dict, lookup, insert, erase}
use replicator.Base.Int.{pos, ltz, mul_int, sub_int, ◌+ℤ◌}
use replicator.Floats.{Floats}
use replicator.Structs.{ScalingState, new_scaling_state, out, inward, GroupScalingPolicy, second}
use replicator.World.{Consul, Notifier, FailureMessage}
use replicator.State.{persist_state, read_state}
use replicator.Failsafe.{failsafe_check, job_type}
use replicator.JobScaling.{NomadJobs, Patience, job_group_scale, is_job_in_deployment}
use replicator.JobScaling.Evaluate.{NomadAllocations, evaluate_job_scaling}
use text.Mathlib.Text.{find?}

-- structs.JobScalingPolicies: for each job the policies of its groups.
pub record JobScalingPolicies (F : Type 0) : Type 0 where
  pub last_change_index : ℕ
  pub policies : Dict String (List (GroupScalingPolicy F))

-- `newJobScalingPolicy`
unfoldable pub new_job_scaling_policy : (F : Type 0) → JobScalingPolicies F
new_job_scaling_policy F = record { last_change_index = 0; policies = [] }

module _ {F : Type 0} where
  -- `RemoveJobScalingPolicy` of client/job_scaling_policies.go.
  unfoldable pub remove_job_scaling_policy : String → JobScalingPolicies F → JobScalingPolicies F
  remove_job_scaling_policy name s = elim (lookup name s.policies) [
    | none ↦ s
    | some policies ↦ record s { policies = erase name s.policies }
  ]

  -- `jobScalingPolicies.Policies[jobName]`
  unfoldable pub held_policies : String → JobScalingPolicies F → List (GroupScalingPolicy F)
  held_policies name s = elim (lookup name s.policies) [ none ↦ [] | some policies ↦ policies ]

  -- What the evaluation writes to the policies that the map refers to.
  unfoldable pub write_policies :
      String → List (GroupScalingPolicy F) → JobScalingPolicies F → JobScalingPolicies F
  write_policies name policies s = elim (lookup name s.policies) [
    | none ↦ s
    | some old ↦ record s { policies = insert name policies s.policies }
  ]

  -- The message for the circuit breaker of a group.
  unfoldable pub group_message : String → GroupScalingPolicy F → FailureMessage
  group_message name p = record {
    alert_uid = p.uid;
    cluster_identifier = "";
    reason = "";
    resource_id = name <> "/" <> p.group_name;
    resource_type = job_type;
    state_path = "";
  }

  -- The new state object of a group.
  unfoldable pub initial_group_state : String → String → GroupScalingPolicy F → ScalingState
  initial_group_state key_root name p =
      new_scaling_state p.group_name job_type
        (key_root <> "/state/jobs/" <> name <> "/" <> p.group_name)

-- `strings.Contains(err.Error(), "404")`
unfoldable pub is_not_found : String → Bool
is_not_found text = elim (find? text "404") [ none ↦ false | some i ↦ true ]

module _ {W : Type 0} (n : NomadJobs W) where
  -- The names that `asyncJobScaling` puts on the channel, out of those that `range` meets.
  unfoldable pub jobs_to_scale : List String → M W (List String)
  jobs_to_scale [] w = (w, [])
  jobs_to_scale (name ∷ names) w =
      let (w', running) = is_job_in_deployment n name w in
      let (w'', rest) = jobs_to_scale names w' in (w'', if running then rest else name ∷ rest)

module _ {W B F : Type 0} (c : Consul W B) where
  -- Whether the cooldown of a group is over.
  unfoldable pub group_is_ready : GroupScalingPolicy F → ScalingState → M W Bool
  group_is_ready p s = do
    time ← c.now
    pure (
        ltz (pos s.last_scaling_event)
          (pos time +ℤ sub_int (pos 0) (mul_int p.cooldown (pos second))))

module _ {W B F : Type 0} (c : Consul W B) (n : NomadJobs W) (patience : Patience) where
  -- The request for scaling a group whose evaluation asks for it.
  unfoldable pub request_scaling : String → GroupScalingPolicy F → ScalingState → M W ScalingState
  request_scaling name p s = elim p.scale_direction [
    | out ↦ if p.enabled then job_group_scale c n patience name p s else pure s
    | inward ↦ if p.enabled then job_group_scale c n patience name p s else pure s
    | _ ↦ pure s
  ]

  -- What follows a check that permits scaling.
  unfoldable pub scale_ready_group : String → GroupScalingPolicy F → ScalingState → W → W
  unfolding group_is_ready request_scaling
  scale_ready_group name p s w =
      let (w1, ready) = group_is_ready c p s w in
      if ready
      then (let (w2, s') = request_scaling name p s w1 in (persist_state c s' w2).0)
      else w1

module _ {W B F : Type 0} (c : Consul W B) (notifiers : List (Notifier W)) (n : NomadJobs W)
    (patience : Patience) (key_root : String) where
  -- The body of the loop over the groups in `jobScaling`.
  unfoldable pub scale_group : String → GroupScalingPolicy F → W → W
  unfolding scale_ready_group initial_group_state group_message
  scale_group name p w =
      let (w1, s) = read_state c (initial_group_state key_root name p) true w in
      let (w2, (s', permitted)) =
        failsafe_check c notifiers s p.retry_threshold (group_message name p) w1 in
      if permitted then scale_ready_group c n patience name p s' w2 else w2

  unfoldable pub scale_groups : String → List (GroupScalingPolicy F) → W → W
  unfolding scale_group
  scale_groups name [] w = w
  scale_groups name (p ∷ policies) w = scale_groups name policies (scale_group name p w)

  -- What follows the evaluation in `jobScaling`.
  unfoldable pub conclude :
      String
      → JobScalingPolicies F
      → List (GroupScalingPolicy F)
      → Option String
      → M W (JobScalingPolicies F)
  unfolding scale_groups
  conclude name s policies none w = (scale_groups name policies w, s)
  conclude name s policies (some text) w =
      (w, if is_not_found text then remove_job_scaling_policy name s else s)

  module _ {A : Type 0} (fl : Floats F) (a : NomadAllocations W A) where
    -- `jobScaling` for one name of the channel.
    unfoldable pub job_scaling : String → JobScalingPolicies F → M W (JobScalingPolicies F)
    unfolding held_policies write_policies conclude
    job_scaling name s w =
        let (w', (policies, failure)) = evaluate_job_scaling fl n a name (held_policies name s) w in
        conclude name (write_policies name policies s) policies failure w'

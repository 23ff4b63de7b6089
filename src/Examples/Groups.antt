-- ===== src/Examples/Groups.antt =====
-- The policies of a job at concrete inputs: one policy for each of two groups.
use replicator.Base.{ℕ, ◌+◌, String, string_eq, Option, some, none, [], ◌∷◌, ◌≡◌, ◌≢◌, refl, ok}
use replicator.Base.Dict.{lookup, insert}
use replicator.Structs.{new_group_scaling_policy}
use replicator.JobScaling.Rounds.{JobScalingPolicies, held_policies}
use replicator.Policies.{PolicyCodecs, update_policies, remove_group_scaling_policy}
use replicator.Policies.Duplicates.{count_group, count_others, update_policies_count}
use replicator.Policies.Groups.{
  remove_group_scaling_policy-one, remove_group_scaling_policy-update_policies,
}
use replicator.Examples.Jobs.{policy_named, api_policy, policies}

abbrev codecs : PolicyCodecs (Option ℕ)
codecs = record { decode = λ meta p. ok p; hash = λ p. ok 1; room = λ n. n }

update_policies_count_example :
    count_group "api" (update_policies codecs api_policy 0 (api_policy ∷ policy_named "cache" ∷ []))
    ≡ count_others "api" (api_policy ∷ policy_named "cache" ∷ [])
      + count_group "api" (api_policy ∷ policy_named "cache" ∷ [])
unfolding new_group_scaling_policy
update_policies_count_example =
    update_policies_count codecs api_policy 0 api_policy (policy_named "cache" ∷ [])

remove_group_scaling_policy-one_example :
    (s' : JobScalingPolicies (Option ℕ)) × (remove_group_scaling_policy "web" "api" policies
      ≡ some s')
    × (held_policies "web" s' ≡ policy_named "cache" ∷ [])
    × ((other : String) → other ≢ "web" → held_policies other s' ≡ held_policies other policies)
unfolding lookup new_group_scaling_policy string_eq
remove_group_scaling_policy-one_example =
    remove_group_scaling_policy-one "web" "api" policies [] (policy_named "cache" ∷ []) api_policy
      refl refl tt (refl, tt)

abbrev updated : JobScalingPolicies (Option ℕ)
updated = record policies {
  policies =
      insert "web" (update_policies codecs api_policy 0 (api_policy ∷ policy_named "cache" ∷ []))
        policies.policies;
}

remove_group_scaling_policy-update_policies_example :
    remove_group_scaling_policy "web" "api" updated ≡ none
unfolding lookup insert string_eq new_group_scaling_policy
remove_group_scaling_policy-update_policies_example =
    remove_group_scaling_policy-update_policies codecs api_policy "web" 0 updated api_policy
      (policy_named "cache") refl (λ e. cc) refl

-- ===== src/Policies/Groups.antt =====
-- Removing the policy of a group of a job: with one policy for the group, and after an update.
use replicator.Base.{
  ℕ, zero, suc, String, true, false, none, some, List, [], ◌∷◌, ◌++◌, ◌≡◌, ◌≢◌, refl, ap, ◌∙◌, All,
  ◌==◌, ==_self, string_eq, inl, inr, Bool-cases, arith,
}
use replicator.Base.Dict.{lookup, insert, erase, lookup-insert, lookup-erase}
use replicator.Helper.{has_object_changed}
use replicator.Structs.{GroupScalingPolicy}
use replicator.JobScaling.Rounds.{JobScalingPolicies, held_policies}
use replicator.Policies.{
  PolicyCodecs, write, remove_matching, remove_group_scaling_policy, update_policies, update_loop,
  update_entry, append_policy,
}
use replicator.Policies.Panics.{remove_matching-one, remove_matching-two}

module _ {F : Type 0} where
  -- The policies of a list are of other groups.
  abbrev pub AreOthers : String → List (GroupScalingPolicy F) → Type 0
  AreOthers group = All (λ p. (p.group_name == group) ≡ false)

  -- If a group has one policy, removing it does not panic and leaves the policies of the other groups of
  -- the job as they are, and those of every other job.
  pub remove_group_scaling_policy-one :
      (job group : String) (s : JobScalingPolicies F) (pre post : List (GroupScalingPolicy F))
      (p : GroupScalingPolicy F)
      → lookup job s.policies ≡ some (pre ++ (p ∷ post))
      → p.group_name ≡ group
      → AreOthers group pre
      → AreOthers group post
      → (s' : JobScalingPolicies F) × (remove_group_scaling_policy job group s ≡ some s')
        × (held_policies job s' ≡ pre ++ post)
        × ((other : String) → other ≢ job → held_policies other s' ≡ held_policies other s)
  unfolding remove_group_scaling_policy held_policies
  remove_group_scaling_policy-one job group s pre post p held own before after = go (pre ++ post) (
      remove_matching-one (λ q. q.group_name == group) pre post p
        (ap (λ name. name == group) own ∙ ==_self group) before after)
    where
      go :
          (rest : List (GroupScalingPolicy F))
          → remove_matching (λ q. q.group_name == group) (pre ++ (p ∷ post)) ≡ some rest
          → (s' : JobScalingPolicies F) × (remove_group_scaling_policy job group s ≡ some s')
            × (held_policies job s' ≡ rest)
            × ((other : String) → other ≢ job → held_policies other s' ≡ held_policies other s)
      go [] e =
          let s' : JobScalingPolicies F = record s { policies = erase job s.policies } in
          (
            s',
            rw (held, e, remove_group_scaling_policy) refl,
            ground (arith, lookup-erase job job s.policies, ==_self job),
            λ other differ. ground (arith, lookup-erase other job s.policies),
          )
      go (q ∷ qs) e =
          let s' : JobScalingPolicies F = record s { policies = insert job (q ∷ qs) s.policies } in
          (
            s',
            rw (held, e, remove_group_scaling_policy) refl,
            ground (arith, lookup-insert job job (q ∷ qs) s.policies, ==_self job),
            λ other differ. ground (arith, lookup-insert other job (q ∷ qs) s.policies),
          )

module _ {F : Type 0} (codecs : PolicyCodecs F) (result : GroupScalingPolicy F) where
  -- What an update makes of the policies of a job with two groups, the first of which is updated.
  update_two :
      (room : ℕ) (p q : GroupScalingPolicy F)
      → (p.group_name == result.group_name) ≡ true
      → (q.group_name == result.group_name) ≡ false
      → (x : GroupScalingPolicy F) × ((x.group_name == result.group_name) ≡ true)
        × (update_policies codecs result room (p ∷ q ∷ []) ≡ x ∷ q ∷ result ∷ [])
  unfolding update_policies update_loop update_entry append_policy write
  update_two zero p q own other = elim (Bool-cases (has_object_changed codecs.hash result p).0) [
    | inl e ↦ (result, ==_self result.group_name, ground (arith, own, other, e))
    | inr e ↦ (p, own, ground (arith, own, other, e))
  ]
  update_two (suc room) p q own other =
      elim (Bool-cases (has_object_changed codecs.hash result p).0) [
        | inl e ↦ (result, ==_self result.group_name, ground (arith, own, other, e))
        | inr e ↦ (p, own, ground (arith, own, other, e))
      ]

  -- Once the policy of the first of two groups of a job has been updated, whether or not it changed,
  -- removing the policy of that group panics.
  pub remove_group_scaling_policy-update_policies :
      (job : String) (room : ℕ) (s : JobScalingPolicies F) (p q : GroupScalingPolicy F)
      → p.group_name ≡ result.group_name
      → q.group_name ≢ result.group_name
      → lookup job s.policies ≡ some (update_policies codecs result room (p ∷ q ∷ []))
      → remove_group_scaling_policy job result.group_name s ≡ none
  unfolding remove_group_scaling_policy
  remove_group_scaling_policy-update_policies job room s p q own other held =
      let (x, mine, updated) =
        update_two room p q (ap (λ name. name == result.group_name) own ∙ ==_self result.group_name)
          (ground (arith, other)) in
      rw
        (
          held ∙ ap some updated,
          remove_matching-two (λ q. q.group_name == result.group_name) [] (q ∷ []) x result tt mine
              (==_self result.group_name),
          remove_group_scaling_policy,
        )
        refl

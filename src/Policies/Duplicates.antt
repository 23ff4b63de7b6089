-- ===== src/Policies/Duplicates.antt =====
-- How many policies a group has after `updateScalingPolicy`, and what removing two of them does.
use replicator.Base.{
  ℕ, zero, suc, ◌+◌, String, true, ◌&&◌, List, [], ◌∷◌, ◌++◌, ◌≡◌, refl, sym, ◌∙◌, if◌then◌else◌,
  ◌==◌, ==_self, string_eq, nat_eq, Bool-cases, inl, inr, arith,
}
use mathlib.Core.Path.{subst}
use replicator.Helper.{has_object_changed}
use replicator.Structs.{GroupScalingPolicy}
use replicator.Policies.{
  PolicyCodecs, Growing, append_policy, update_entry, update_loop, update_policies, write,
}

eq_of_test : (s t : String) → (s == t) ≡ true → s ≡ t
eq_of_test s t h = ground arith

module _ {F : Type 0} where
  -- The number of policies of a group.
  abbrev pub count_group : String → List (GroupScalingPolicy F) → ℕ
  count_group name [] = 0
  count_group name (p ∷ ps) =
      let rest = count_group name ps in if p.group_name == name then suc rest else rest

  -- The number of policies of other groups.
  abbrev pub count_others : String → List (GroupScalingPolicy F) → ℕ
  count_others name [] = 0
  count_others name (p ∷ ps) =
      let rest = count_others name ps in if p.group_name == name then rest else suc rest

  count_append :
      (name : String) (ps : List (GroupScalingPolicy F)) (p : GroupScalingPolicy F)
      → p.group_name ≡ name
      → count_group name (ps ++ (p ∷ [])) ≡ suc (count_group name ps)
  count_append name [] p e = ground (arith, ==_self name)
  count_append name (q ∷ ps) p e = ground (arith, count_append name ps p e)

  -- Whether the policy at an index is of a group.
  abbrev IsAt : ℕ → String → List (GroupScalingPolicy F) → Type 0
  IsAt i name [] = ⊥
  IsAt zero name (p ∷ ps) = p.group_name ≡ name
  IsAt (suc i) name (p ∷ ps) = IsAt i name ps

  count_write :
      (i : ℕ) (p : GroupScalingPolicy F) (ps : List (GroupScalingPolicy F))
      → IsAt i p.group_name ps
      → count_group p.group_name (write i p ps) ≡ count_group p.group_name ps
  unfolding write
  count_write i p [] h = refl
  count_write zero p (q ∷ ps) h = ground (arith, ==_self p.group_name)
  count_write (suc i) p (q ∷ ps) h = ground (arith, count_write i p ps h)

  -- The policies from an index on are of the groups of a list.
  abbrev AreAt : ℕ → List (GroupScalingPolicy F) → List (GroupScalingPolicy F) → Type 0
  AreAt i [] ps = Unit
  AreAt i (g ∷ gs) ps = IsAt i g.group_name ps × AreAt (suc i) gs ps

  IsAt-append :
      (i : ℕ) (name : String) (ps qs : List (GroupScalingPolicy F))
      → IsAt i name ps
      → IsAt i name (ps ++ qs)
  IsAt-append i name [] qs h = absurd h
  IsAt-append zero name (p ∷ ps) qs h = h
  IsAt-append (suc i) name (p ∷ ps) qs h = IsAt-append i name ps qs h

  IsAt-write :
      (i j : ℕ) (name : String) (p : GroupScalingPolicy F) (ps : List (GroupScalingPolicy F))
      → IsAt j p.group_name ps
      → IsAt i name ps
      → IsAt i name (write j p ps)
  unfolding write
  IsAt-write i j name p [] k h = absurd h
  IsAt-write zero zero name p (q ∷ ps) k h = sym k ∙ h
  IsAt-write zero (suc j) name p (q ∷ ps) k h = h
  IsAt-write (suc i) zero name p (q ∷ ps) k h = h
  IsAt-write (suc i) (suc j) name p (q ∷ ps) k h = IsAt-write i j name p ps k h

  AreAt-map :
      (i : ℕ) (gs ps qs : List (GroupScalingPolicy F))
      → ((j : ℕ) (name : String) → IsAt j name ps → IsAt j name qs)
      → AreAt i gs ps
      → AreAt i gs qs
  AreAt-map i [] ps qs f h = tt
  AreAt-map i (g ∷ gs) ps qs f h = (f i g.group_name h.0, AreAt-map (suc i) gs ps qs f h.1)

  IsAt-cons :
      (i : ℕ) (gs ps : List (GroupScalingPolicy F)) (p : GroupScalingPolicy F)
      → AreAt i gs ps
      → AreAt (suc i) gs (p ∷ ps)
  IsAt-cons i [] ps p h = tt
  IsAt-cons i (g ∷ gs) ps p h = (h.0, IsAt-cons (suc i) gs ps p h.1)

  AreAt-self : (ps : List (GroupScalingPolicy F)) → AreAt 0 ps ps
  AreAt-self [] = tt
  AreAt-self (p ∷ ps) = (refl, IsAt-cons 0 ps ps p (AreAt-self ps))

module _ {F : Type 0} (codecs : PolicyCodecs F) (result : GroupScalingPolicy F) where
  -- One entry more for each policy of another group, and none for the group's own, which stays where
  -- it is: the policies of the other indices stay of the same groups.
  abbrev IsEntered : ℕ → GroupScalingPolicy F → Growing F → Type 0
  IsEntered i group s =
      let s' = update_entry codecs result i group s in
      (count_group result.group_name s'.policies
        ≡ (if group.group_name == result.group_name then 0 else 1)
          + count_group result.group_name s.policies)
      × ((j : ℕ) (name : String) → IsAt j name s.policies → IsAt j name s'.policies)

  append_policy_policies :
      (s : Growing F) → (append_policy codecs result s).policies ≡ s.policies ++ (result ∷ [])
  unfolding append_policy
  append_policy_policies s = go s.room
    where
      go :
          (room : ℕ)
          → (append_policy codecs result (record s { room = room })).policies
            ≡ s.policies ++ (result ∷ [])
      go zero = refl
      go (suc room) = refl

  update_entry-IsEntered :
      (i : ℕ) (group : GroupScalingPolicy F) (s : Growing F)
      → IsAt i group.group_name s.policies
      → IsEntered i group s
  unfolding update_entry
  update_entry-IsEntered i group s h = elim (Bool-cases (group.group_name == result.group_name)) [
    | inl same ↦
        let at = subst (λ name. IsAt i name s.policies) (eq_of_test _ _ same) h in
        elim (Bool-cases ((has_object_changed codecs.hash result group).0 && s.shared)) [
          | inl e ↦
              rw (same, e, update_entry)
                (
                  omega (arith, count_write i result s.policies at),
                  λ j name k. IsAt-write j i name result s.policies at k,
                )
          | inr e ↦ rw (same, e, update_entry) (omega arith, λ j name k. k)
        ]
    | inr differ ↦
        rw (differ, update_entry, append_policy_policies s)
          (
            omega (arith, count_append result.group_name s.policies result refl),
            λ j name k. IsAt-append j name s.policies (result ∷ []) k,
          )
  ]

  update_loop_count :
      (i : ℕ) (groups : List (GroupScalingPolicy F)) (s : Growing F)
      → AreAt i groups s.policies
      → count_group result.group_name (update_loop codecs result i groups s).policies
        ≡ count_others result.group_name groups + count_group result.group_name s.policies
  unfolding update_loop
  update_loop_count i [] s h = omega arith
  update_loop_count i (g ∷ groups) s h =
      let entered = update_entry-IsEntered i g s h.0 in
      let s' = update_entry codecs result i g s in
      let rest =
        update_loop_count (suc i) groups s'
          (AreAt-map (suc i) groups s.policies s'.policies entered.1 h.1) in
      ground (arith, rest, entered.0)

  -- Updating the policy of a group of a job that has policies leaves the group with as many policies
  -- as it had and one more for each policy of another group.
  pub update_policies_count :
      (room : ℕ) (p : GroupScalingPolicy F) (ps : List (GroupScalingPolicy F))
      → count_group result.group_name (update_policies codecs result room (p ∷ ps))
        ≡ count_others result.group_name (p ∷ ps) + count_group result.group_name (p ∷ ps)
  unfolding update_policies
  update_policies_count room p ps = update_loop_count 0 (p ∷ ps) _ (AreAt-self (p ∷ ps))

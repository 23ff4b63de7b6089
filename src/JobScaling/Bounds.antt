-- ===== src/JobScaling/Bounds.antt =====
-- What `JobGroupScale` submits to Nomad.
use replicator.Base.{
  true, false, List, [], ◌∷◌, ◌≡◌, ◌≢◌, refl, ◌↔◌, inl, inr, string_eq, All, Bool-cases, arith,
}
use replicator.Base.Int.{ℤ, pos, IsInt, ◌≤ℤ◌, ◌<ℤ◌, ◌+ℤ◌, ◌-ℤ◌, add_int, sub_int, wrap-eq}
use replicator.Structs.{
  ScalingState, Direction, out, inward, none_wanted, unset, GroupScalingPolicy, TaskGroup,
}
use replicator.JobScaling.{constrained, resize_group, resize}

-- A count a step further in a direction.
abbrev pub step : Direction → ℤ → ℤ
step out n = n +ℤ pos 1
step inward n = n -ℤ pos 1
step none_wanted n = n
step unset n = n

module _ {F : Type 0} (p : GroupScalingPolicy F) where
  -- The bound that a count meets when it is changed in a direction.
  abbrev pub IsWithin : Direction → ℤ → Type 0
  IsWithin out n = n ≤ℤ p.max
  IsWithin inward n = p.min ≤ℤ n
  IsWithin none_wanted n = Unit
  IsWithin unset n = Unit

  -- How a submitted task group follows from the one that Nomad runs.
  abbrev pub IsResized : TaskGroup → TaskGroup → Type 0
  IsResized g g' =
      (g.name ≡ p.group_name
        → (g' ≡ record g { count = step p.scale_direction g.count })
          × IsWithin p.scale_direction g'.count)
      × (g.name ≢ p.group_name → g' ≡ g)

  -- The groups of a job, one by one.
  abbrev pub AreResized : List TaskGroup → List TaskGroup → Type 0
  AreResized [] [] = Unit
  AreResized [] (h ∷ hs) = ⊥
  AreResized (g ∷ gs) [] = ⊥
  AreResized (g ∷ gs) (h ∷ hs) = IsResized g h × AreResized gs hs

  -- The bounds of a policy are numbers of 64 bits.
  abbrev pub IsBounded : Type 0
  IsBounded = IsInt p.max × IsInt p.min

  add_one : (n : ℤ) → IsInt n → IsInt p.max → n <ℤ p.max → add_int n (pos 1) ≡ n +ℤ pos 1
  unfolding add_int ◌+ℤ◌
  add_one n h k l = wrap-eq (n +ℤ pos 1) (ground arith)

  sub_one : (n : ℤ) → IsInt n → IsInt p.min → p.min <ℤ n → sub_int n (pos 1) ≡ n -ℤ pos 1
  unfolding sub_int ◌-ℤ◌
  sub_one n h k l = wrap-eq (n -ℤ pos 1) (ground arith)

  raised : (n : ℤ) → n <ℤ p.max → (n +ℤ pos 1) ≤ℤ p.max
  unfolding ◌+ℤ◌
  raised n l = ground arith

  lowered : (n : ℤ) → p.min <ℤ n → p.min ≤ℤ (n -ℤ pos 1)
  unfolding ◌-ℤ◌
  lowered n l = ground arith

  resize_group-IsResized :
      (g : TaskGroup) (s : ScalingState)
      → IsBounded
      → IsInt g.count
      → constrained p g ≡ false
      → IsResized g (resize_group p g s).0
  unfolding constrained resize_group
  resize_group-IsResized g s bounded h free = go p.scale_direction refl
    where
      go : (d : Direction) → p.scale_direction ≡ d → IsResized g (resize_group p g s).0
      go out e = rw e (ground (arith, add_one g.count h bounded.0, raised g.count))
      go inward e = rw e (ground (arith, sub_one g.count h bounded.1, lowered g.count))
      go none_wanted e = rw e (ground arith)
      go unset e = rw e (ground arith)

  -- Whether a count may be changed in a direction: below the maximum for more, above the minimum for
  -- less.
  abbrev pub HasRoom : Direction → ℤ → Type 0
  HasRoom out n = n <ℤ p.max
  HasRoom inward n = p.min <ℤ n
  HasRoom none_wanted n = Unit
  HasRoom unset n = Unit

  constrained_iff : (g : TaskGroup) → (constrained p g ≡ false) ↔ HasRoom p.scale_direction g.count
  unfolding constrained
  constrained_iff g = go p.scale_direction refl
    where
      go :
          (d : Direction)
          → p.scale_direction ≡ d
          → (constrained p g ≡ false) ↔ HasRoom p.scale_direction g.count
      go out e = rw e (λ h. ground arith, λ h. ground arith)
      go inward e = rw e (λ h. ground arith, λ h. ground arith)
      go none_wanted e = rw e (λ h. tt, λ h. ground arith)
      go unset e = rw e (λ h. tt, λ h. ground arith)

  -- The loop over the task groups permits the job to be submitted exactly if every task group of the
  -- job, and not only the one that the policy names, has a count that may be changed in the direction
  -- of the policy: below its maximum for a scale-out, above its minimum for a scale-in.
  pub resize_iff :
      (gs : List TaskGroup) (s : ScalingState)
      → ((resize p gs s).2 ≡ true) ↔ All (λ g. HasRoom p.scale_direction g.count) gs
  unfolding resize
  resize_iff [] s = (λ h. tt, λ h. refl)
  resize_iff (g ∷ gs) s = elim (Bool-cases (constrained p g)) [
    | inl e ↦ (λ h. absurd (ground arith), λ h. absurd (ground (arith, (constrained_iff g).1 h.0)))
    | inr e ↦
        let rest = resize_iff gs (resize_group p g s).1 in
        (λ h. ((constrained_iff g).0 e, rest.0 (ground arith)), λ h. ground (arith, rest.1 h.1))
  ]

  -- The task groups that are submitted differ from those that Nomad runs in the group that the
  -- policy names and in nothing else, and only by one in its count, which stays within the bound of
  -- the policy.
  pub resize-AreResized :
      (gs : List TaskGroup) (s : ScalingState)
      → IsBounded
      → All (λ g. IsInt g.count) gs
      → (resize p gs s).2 ≡ true
      → AreResized gs (resize p gs s).0
  unfolding resize
  resize-AreResized [] s bounded h permitted = tt
  resize-AreResized (g ∷ gs) s bounded h permitted = elim (Bool-cases (constrained p g)) [
    | inl e ↦ absurd (ground arith)
    | inr e ↦
        rw (e, resize)
          (
            resize_group-IsResized g s bounded h.0 e,
            resize-AreResized gs (resize_group p g s).1 bounded h.1 (ground arith),
          )
  ]

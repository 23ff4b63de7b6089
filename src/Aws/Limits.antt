-- ===== src/Aws/Limits.antt =====
-- The sizes of the autoscaling group.
use mathlib.Core.Option.{some-injective}
use replicator.Base.{
  ◌↔◌, ℕ, ◌+◌, ◌≤◌, ◌<◌, true, false, ◌≡◌, refl, ap, some, [], ◌∷◌, arith, string_eq, length,
}
use replicator.Base.Int.{pos}
use replicator.Base.Int.Exact.{add_int-pos, sub_int-pos}
use replicator.Structs.{WorkerPool, ScalingState, Direction, inward, out}
use replicator.Aws.{
  ScalingGroup, AwsApi, Patience, within_sizes, describe_scaling_group, safety_check,
}

-- What the sizes of the group permit.
abbrev pub Fits : ℕ → ℕ → ℕ → ℕ → Direction → Type 0
Fits nodes desired least most direction =
    (nodes ≡ desired)
    × (direction ≡ inward → least + 1 ≤ desired)
    × (direction ≡ out → desired + 1 ≤ most)

within_sizes_iff :
    (nodes desired least most : ℕ) (s : ScalingState) (g : ScalingGroup)
    → g.desired_capacity ≡ pos desired
    → g.min_size ≡ pos least
    → g.max_size ≡ pos most
    → desired < 9223372036854775807
    → (within_sizes nodes s g ≡ true) ↔ Fits nodes desired least most s.scaling_direction
unfolding within_sizes
within_sizes_iff nodes desired least most s g hd hl hm b = (
  λ h. (
    ground arith,
    λ e. ground (arith, sub_int-pos desired 1 (omega arith) (omega arith)),
    λ e. ground (arith, add_int-pos desired 1 (omega arith)),
  ),
  λ (same, small, large). fits s.scaling_direction refl same small large,
)
  where
    fits :
        (d : Direction)
        → s.scaling_direction ≡ d
        → nodes ≡ desired
        → (s.scaling_direction ≡ inward → least + 1 ≤ desired)
        → (s.scaling_direction ≡ out → desired + 1 ≤ most)
        → within_sizes nodes s g ≡ true
    fits inward e same small large =
        ground (arith, sub_int-pos desired 1 (omega arith) (omega arith), small e)
    fits out e same small large = ground (arith, add_int-pos desired 1 (omega arith), large e)
    fits Direction.none_wanted e same small large = ground arith
    fits Direction.unset e same small large = ground arith

module _ {W : Type 0} (api : AwsApi W) (patience : Patience) where
  -- Where AWS returns the one group of the pool, the safety check of the provider permits scaling
  -- exactly if the pool has as many nodes as the group wants and the group may be one smaller, for a
  -- scale-in, or one larger, for a scale-out. The sizes are not negative and 64 bits hold them.
  pub safety_check_iff :
      (desired least most : ℕ) (pool : WorkerPool) (s : ScalingState) (g : ScalingGroup) (w : W)
      → (api.describe_groups pool.name w).1 ≡ (g ∷ [], false)
      → g.desired_capacity ≡ pos desired
      → g.min_size ≡ pos least
      → g.max_size ≡ pos most
      → desired < 9223372036854775807
      → ((safety_check api patience pool s w).1 ≡ some true)
        ↔ Fits (length pool.nodes) desired least most s.scaling_direction
  unfolding safety_check describe_scaling_group
  safety_check_iff desired least most pool s g w reply hd hl hm b =
      let (to, from) = within_sizes_iff (length pool.nodes) desired least most s g hd hl hm b in
      (
        λ h. to (some-injective _ _ (rw (reply, safety_check) at h)),
        λ fits. rw (reply, safety_check) (ap some (from fits)),
      )

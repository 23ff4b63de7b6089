-- ===== src/JobScaling/Gates.antt =====
-- When a round of job scaling calls `JobGroupScale`.
use replicator.Base.{arith, String, true, false, List, ◌≡◌, refl, ◌⊎◌, inl, inr, if_property, M}
use replicator.Base.Int.{pos, ◌<ℤ◌, ◌+ℤ◌, mul_int, sub_int}
use replicator.Structs.{
  ScalingState, Direction, out, inward, none_wanted, unset, GroupScalingPolicy, Time, second,
}
use replicator.World.{Consul, Notifier}
use replicator.State.{read_state}
use replicator.Failsafe.{failsafe_check}
use replicator.Failsafe.Breaker.{failsafe_check_iff, failsafe_check_state}
use replicator.Failsafe.Kept.{IsStable, persist_state_keeps, read_state_keeps, failsafe_check_keeps}
use replicator.JobScaling.{NomadJobs, Patience, job_group_scale}
use replicator.JobScaling.Rounds.{
  group_is_ready, request_scaling, scale_ready_group, scale_group, group_message,
  initial_group_state,
}

-- What has been checked at a time when a group is handed to `JobGroupScale` in a state.
pub record IsPassed {F : Type 0} (p : GroupScalingPolicy F) (s : ScalingState) (time : Time)
    : Type 0 where
  pub failsafe_off : s.failsafe_mode ≡ false
  pub below_threshold : s.failure_count <ℤ p.retry_threshold
  pub enabled : p.enabled ≡ true
  pub directed : (p.scale_direction ≡ out) ⊎ (p.scale_direction ≡ inward)
  -- The last scaling event is further back than the cooldown, in nanoseconds of 64 bits.
  pub cooled_down :
      pos s.last_scaling_event <ℤ (pos time +ℤ sub_int (pos 0) (mul_int p.cooldown (pos second)))

module _ {W B F : Type 0} (c : Consul W B) (notifiers : List (Notifier W)) (n : NomadJobs W)
    (patience : Patience) (key_root : String) (P : W → Type 0)
    (stable : IsStable c notifiers P) where
  -- The call of `JobGroupScale` in a state, after the clock was read in a world, keeps a property if
  -- the checks pass in that state and at the time read.
  abbrev pub IsCallKept : String → GroupScalingPolicy F → ScalingState → W → Type 0
  IsCallKept name p s w =
      IsPassed p s (c.now w).1
      → P (c.now w).0
      → P (job_group_scale c n patience name p s (c.now w).0).0

  request_scaling_keeps :
      (name : String) (p : GroupScalingPolicy F) (s : ScalingState) (w : W)
      → (p.enabled ≡ true
          → (p.scale_direction ≡ out) ⊎ (p.scale_direction ≡ inward)
          → P (job_group_scale c n patience name p s w).0)
      → P w
      → P (request_scaling c n patience name p s w).0
  unfolding request_scaling
  request_scaling_keeps name p s w call h = go p.scale_direction refl
    where
      go : (d : Direction) → p.scale_direction ≡ d → P (request_scaling c n patience name p s w).0
      go out e =
          rw (e, request_scaling)
            (if_property (λ (r : M W ScalingState). P (r w).0) p.enabled (λ on. call on (inl e))
              (λ off. h))
      go inward e =
          rw (e, request_scaling)
            (if_property (λ (r : M W ScalingState). P (r w).0) p.enabled (λ on. call on (inr e))
              (λ off. h))
      go none_wanted e = rw (e, request_scaling) h
      go unset e = rw (e, request_scaling) h

  scale_ready_group_keeps :
      (name : String) (p : GroupScalingPolicy F) (s : ScalingState) (w : W)
      → IsCallKept name p s w
      → s.failsafe_mode ≡ false
      → s.failure_count <ℤ p.retry_threshold
      → P w
      → P (scale_ready_group c n patience name p s w)
  unfolding scale_ready_group group_is_ready
  scale_ready_group_keeps name p s w call off below h =
      let w1 = (c.now w).0 in
      let scaled = request_scaling c n patience name p s w1 in
      if_property P (group_is_ready c p s w).1
        (λ ready. persist_state_keeps c P stable scaled.1 scaled.0 (
          request_scaling_keeps name p s w1
            (λ on way.
              call
                (record {
                  failsafe_off = off;
                  below_threshold = below;
                  enabled = on;
                  directed = way;
                  cooled_down = ground (arith, ready);
                })
                (stable.now w h))
            (stable.now w h)))
        (λ early. stable.now w h)

  -- A round calls `JobGroupScale` for a group at most once, in the state that was read for the group
  -- and after the clock was read once more, and only when that state is not in failsafe mode, has
  -- fewer failures than the threshold of the policy and a last scaling event further back from that
  -- time than the cooldown, and the policy is enabled and to be scaled out or in: what the store, the
  -- clock, the notification backends and that call keep of the world, the round keeps.
  pub scale_group_keeps :
      (name : String) (p : GroupScalingPolicy F) (w : W)
      → (let (w1, s) = read_state c (initial_group_state key_root name p) true w in
          IsCallKept name p s w1)
      → P w
      → P (scale_group c notifiers n patience key_root name p w)
  unfolding scale_group
  scale_group_keeps name p w call h =
      let read = read_state c (initial_group_state key_root name p) true w in
      let read_h = read_state_keeps c P stable (initial_group_state key_root name p) true w h in
      let message = group_message name p in
      let r = failsafe_check c notifiers read.1 p.retry_threshold message read.0 in
      let r_h = failsafe_check_keeps c P stable read.1 p.retry_threshold message read.0 read_h in
      let same = (failsafe_check_state c notifiers read.1 p.retry_threshold message read.0).1 in
      let gate = (failsafe_check_iff c notifiers read.1 p.retry_threshold message read.0).0 in
      if_property P r.1.1
        (λ passing. rw (same passing) (
          scale_ready_group_keeps name p read.1 read.0 call (gate passing).0 (gate passing).1
            read_h))
        (λ refused. r_h)

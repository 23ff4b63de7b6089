-- ===== src/Aws/Termination.antt =====
-- When `terminateInstance` reports that an instance is gone.
use replicator.Base.{
  ℕ, zero, suc, String, true, false, ◌≡◌, ◌≢◌, refl, ap, ◌∙◌, ◌⊎◌, ◌↔◌, inl, inr, some, List, [],
  ◌∷◌, arith, ◌==◌, string_eq, ==_self, Result, ok, err, Bool-cases,
}
use replicator.Polling.{poll, poll_again}
use replicator.Aws.{AwsApi, Patience, terminate_instance, termination_attempt}

module _ {W : Type 0} (api : AwsApi W) (patience : Patience) where
  -- Within so many ticks, from a world on, EC2 answers a request for the states of the instance with
  -- `terminated` first, after answers that begin with something else.
  abbrev pub IsTerminated : String → String → ℕ → W → Type 0
  IsTerminated id region zero w = ⊥
  IsTerminated id region (suc ticks) w =
      let (w', reply) = api.instance_states id region (api.tick w) in
      ((states : List String) × (reply ≡ ok ("terminated" ∷ states)))
      ⊎ ((state : String) × (states : List String) × (reply ≡ ok (state ∷ states))
          × (state ≢ "terminated")
          × IsTerminated id region ticks w')

  termination_attempt-IsTerminated :
      (id region : String) (ticks : ℕ) (w : W)
      → (poll_again (some true) (termination_attempt api patience id region) ticks w).1 ≡ some false
      → IsTerminated id region ticks w
  unfolding poll_again poll termination_attempt
  termination_attempt-IsTerminated id region zero w h = absurd (ground (arith, h))
  termination_attempt-IsTerminated id region (suc ticks) w h =
      go (api.instance_states id region (api.tick w)).1 refl (
        termination_attempt-IsTerminated id region ticks
          (api.instance_states id region (api.tick w)).0)
    where
      go :
          (reply : Result (List String))
          → (api.instance_states id region (api.tick w)).1 ≡ reply
          → (let v = (api.instance_states id region (api.tick w)).0 in
              (poll_again (some true) (termination_attempt api patience id region) ticks v).1
                ≡ some false
              → IsTerminated id region ticks v)
          → IsTerminated id region (suc ticks) w
      go err e later = absurd (ground (arith, rw (e, poll_again, poll, termination_attempt) at h))
      go (ok []) e later =
          absurd (ground (arith, rw (e, poll_again, poll, termination_attempt) at h))
      go (ok (x ∷ xs)) e later = elim (Bool-cases (x == "terminated")) [
        | inl same ↦ inl (xs, e ∙ ap (λ y. ok (y ∷ xs)) (ground (arith, same)))
        | inr other ↦ inr (
          x,
          xs,
          e,
          ground (arith, other),
          later (rw (e, other, poll_again, poll, termination_attempt) at h),
        )
      ]

  termination_attempt_within :
      (id region : String) (ticks : ℕ) (w : W)
      → IsTerminated id region ticks w
      → (poll_again (some true) (termination_attempt api patience id region) ticks w).1 ≡ some false
  unfolding poll_again poll termination_attempt
  termination_attempt_within id region zero w impossible = elim impossible [ ]
  termination_attempt_within id region (suc ticks) w (inl (states, e)) =
      let gone = ==_self {A = String} "terminated" in
      rw (e, gone, poll_again, poll, termination_attempt) refl
  termination_attempt_within id region (suc ticks) w (inr (state, states, e, other, later)) =
      let left : (state == "terminated") ≡ false = ground (arith, other) in
      rw (e, left, poll_again, poll, termination_attempt)
        (termination_attempt_within id region ticks (api.instance_states id region (api.tick w)).0
          later)

  -- `terminateInstance` reports success exactly if EC2 accepts the request to terminate the instance
  -- and afterwards, within the ticks before the timeout, answers one of the requests for the states of
  -- the instance with `terminated` first, all answers before it having begun with another state.
  pub terminate_instance_iff :
      (id region : String) (w : W)
      → ((terminate_instance api patience id region w).1 ≡ some false) ↔ (
          ((api.terminate id region w).1 ≡ false)
          × IsTerminated id region patience.termination (api.terminate id region w).0)
  unfolding terminate_instance
  terminate_instance_iff id region w = elim (Bool-cases (api.terminate id region w).1) [
    | inl refused ↦ (
      λ h. absurd (ground (arith, rw (refused, terminate_instance) at h)),
      λ (accepted, _). absurd (ground arith),
    )
    | inr accepted ↦ (
      λ h. (
        accepted,
        termination_attempt-IsTerminated id region patience.termination
            (api.terminate id region w).0 (rw (accepted, terminate_instance) at h),
      ),
      λ (_, gone).
          rw (accepted, terminate_instance)
            (termination_attempt_within id region patience.termination (api.terminate id region w).0
              gone),
    )
  ]

-- ===== src/JobScaling/Deployed.antt =====
-- When an evaluation gets its deployment, in terms of Nomad's answers.
use replicator.Base.{
  ℕ, zero, suc, String, false, ◌≡◌, ◌≢◌, ◌⊎◌, inl, inr, ap, ◌∙◌, ◌==◌, string_eq, ==_self, ok, err,
  Result-cases, Bool-cases, arith,
}
use replicator.Polling.{poll, poll_again}
use replicator.JobScaling.{NomadJobs, evaluation_attempt}

module _ {W : Type 0} (n : NomadJobs W) where
  -- Within so many requests for an evaluation Nomad names its deployment, after errors and empty
  -- names only, and leaves the world as given.
  abbrev pub IsDeployed : String → ℕ → W → String → W → Type 0
  IsDeployed evaluation zero w deployment w' = ⊥
  IsDeployed evaluation (suc ticks) w deployment w' =
      ((n.evaluation_info evaluation w).0 ≡ w')
        × ((n.evaluation_info evaluation w).1 ≡ ok deployment)
        × (deployment ≢ "")
      ⊎ (((n.evaluation_info evaluation w).1 ≡ err) ⊎ ((n.evaluation_info evaluation w).1 ≡ ok ""))
        × IsDeployed evaluation ticks (n.evaluation_info evaluation w).0 deployment w'

  pub get_deployment_id-IsDeployed :
      (evaluation : String) (ticks : ℕ) (w w' : W) (deployment : String)
      → poll_again err (evaluation_attempt n evaluation) ticks w ≡ (w', ok deployment)
      → IsDeployed evaluation ticks w deployment w'
  unfolding poll_again poll evaluation_attempt
  get_deployment_id-IsDeployed evaluation zero w w' deployment h = absurd (ground (arith, h))
  get_deployment_id-IsDeployed evaluation (suc ticks) w w' deployment h =
      elim (Result-cases (n.evaluation_info evaluation w).1) [
        | inl e ↦ inr (
          inl e,
          get_deployment_id-IsDeployed evaluation ticks (n.evaluation_info evaluation w).0 w'
              deployment (rw (e, poll_again, poll, evaluation_attempt) at h),
        )
        | inr (d, e) ↦ elim (Bool-cases (d == "")) [
          | inl blank ↦ inr (
            inr (e ∙ ap ok (ground (arith, blank))),
            get_deployment_id-IsDeployed evaluation ticks (n.evaluation_info evaluation w).0 w'
                deployment (rw (e, blank, poll_again, poll, evaluation_attempt) at h),
          )
          | inr named ↦
              let got = rw (e, named, poll_again, poll, evaluation_attempt) at h in
              let same : d ≡ deployment = ground (arith, got) in
              inl (ap (λ r. r.0) got, e ∙ ap ok same, λ none. ground (arith, same, named, none))
        ]
      ]

  pub get_deployment_id_within :
      (evaluation : String) (ticks : ℕ) (w w' : W) (deployment : String)
      → IsDeployed evaluation ticks w deployment w'
      → poll_again err (evaluation_attempt n evaluation) ticks w ≡ (w', ok deployment)
  unfolding poll_again poll evaluation_attempt
  get_deployment_id_within evaluation zero w w' deployment impossible = elim impossible [ ]
  get_deployment_id_within evaluation (suc ticks) w w' deployment (inl (moved, answer, named)) =
      let other : (deployment == "") ≡ false = ground (arith, named) in
      rw (answer, other, poll_again, poll, evaluation_attempt) (ap (λ v. (v, ok deployment)) moved)
  get_deployment_id_within evaluation (suc ticks) w w' deployment (inr (inl e, later)) =
      rw (e, poll_again, poll, evaluation_attempt)
        (get_deployment_id_within evaluation ticks (n.evaluation_info evaluation w).0 w' deployment
          later)
  get_deployment_id_within evaluation (suc ticks) w w' deployment (inr (inr e, later)) =
      let blank = ==_self {A = String} "" in
      rw (e, blank, poll_again, poll, evaluation_attempt)
        (get_deployment_id_within evaluation ticks (n.evaluation_info evaluation w).0 w' deployment
          later)

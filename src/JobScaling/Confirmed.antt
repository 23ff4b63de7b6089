-- ===== src/JobScaling/Confirmed.antt =====
-- When the confirmation of a scaling succeeds, in terms of Nomad's answers.
use replicator.Base.{
  ℕ, zero, suc, ◌≤◌, ◌<◌, String, Bool, true, false, ◌≡◌, ◌↔◌, ◌⊎◌, inl, inr, refl, ap, sym, ◌∙◌,
  ◌==◌, string_eq, leb, Result, ok, err, Result-cases, Bool-cases, arith,
}
use replicator.Polling.{Tick, again, finished, poll}
use replicator.JobScaling.{
  NomadJobs, Patience, deployment_attempt, get_deployment_id, scale_confirmation,
}
use replicator.JobScaling.Deployed.{
  IsDeployed, get_deployment_id-IsDeployed, get_deployment_id_within,
}

running_not_done : ◌==◌ {A = String} "running" "successful" ≡ false
unfolding string_eq
running_not_done = refl

module _ {W : Type 0} (n : NomadJobs W) where
  -- Within so many requests for a deployment, each at the last index that was new, Nomad answers that
  -- it was successful, after answers that are not new or say that it is running.
  abbrev pub IsSuccessful : String → ℕ → ℕ → W → Type 0
  IsSuccessful deployment zero index w = ⊥
  IsSuccessful deployment (suc ticks) index w =
      (status : String) × (last : ℕ) × ((n.deployment_info deployment index w).1
        ≡ ok (status, last))
      × ((last ≤ index)
            × IsSuccessful deployment ticks index (n.deployment_info deployment index w).0
          ⊎ (index < last)
            × ((status ≡ "successful")
                ⊎ (status ≡ "running")
                  × IsSuccessful deployment ticks last (n.deployment_info deployment index w).0))

  waits :
      (deployment : String) (ticks index next : ℕ) (w : W)
      → deployment_attempt n deployment index w
        ≡ ((n.deployment_info deployment index w).0, next, again)
      → (poll false (deployment_attempt n deployment) (suc ticks) index w).1
        ≡ (poll false
            (deployment_attempt n deployment)
            ticks
            next
            (n.deployment_info deployment index w).0).1
  unfolding poll
  waits deployment ticks index next w e =
      ap
        (λ (r : W × ℕ × Tick Bool).
          (elim r.2 as (λ x. W × Bool) [
            | again ↦ poll false (deployment_attempt n deployment) ticks r.1 r.0
            | finished a ↦ (r.0, a)
          ]).1)
        e

  deployment_attempt-IsSuccessful :
      (deployment : String) (ticks index : ℕ) (w : W)
      → (poll false (deployment_attempt n deployment) ticks index w).1 ≡ true
      → IsSuccessful deployment ticks index w
  unfolding poll deployment_attempt
  deployment_attempt-IsSuccessful deployment zero index w h = absurd (ground (arith, h))
  deployment_attempt-IsSuccessful deployment (suc ticks) index w h =
      elim (Result-cases (n.deployment_info deployment index w).1) [
        | inl e ↦ absurd (ground (arith, rw (e, poll, deployment_attempt) at h))
        | inr ((status, last), e) ↦ elim (Bool-cases (leb last index)) [
          | inl old ↦ (
            status,
            last,
            e,
            inl (
              ground (arith, old),
              deployment_attempt-IsSuccessful deployment ticks index
                  (n.deployment_info deployment index w).0
                  (sym (waits deployment ticks index index w (rw (e, old, deployment_attempt) refl))
                    ∙ h),
            ),
          )
          | inr new ↦ elim (Bool-cases (status == "successful")) [
            | inl done ↦ (status, last, e, inr (ground (arith, new), inl (ground (arith, done))))
            | inr not_done ↦ elim (Bool-cases (status == "running")) [
              | inl runs ↦ (
                status,
                last,
                e,
                inr (
                  ground (arith, new),
                  inr (
                    ground (arith, runs),
                    deployment_attempt-IsSuccessful deployment ticks last
                        (n.deployment_info deployment index w).0
                        (sym (
                            waits deployment ticks index last w
                              (rw (e, new, not_done, runs, deployment_attempt) refl))
                          ∙ h),
                  ),
                ),
              )
              | inr ends ↦
                  absurd
                    (ground (arith, rw (e, new, not_done, ends, poll, deployment_attempt) at h))
            ]
          ]
        ]
      ]

  deployment_attempt_within :
      (deployment : String) (ticks index : ℕ) (w : W)
      → IsSuccessful deployment ticks index w
      → (poll false (deployment_attempt n deployment) ticks index w).1 ≡ true
  unfolding poll deployment_attempt
  deployment_attempt_within deployment zero index w impossible = elim impossible [ ]
  deployment_attempt_within deployment (suc ticks) index w (status, last, e, inl (le, later)) =
      let old : leb last index ≡ true = ground (arith, le) in
      waits deployment ticks index index w (rw (e, old, deployment_attempt) refl)
      ∙ deployment_attempt_within deployment ticks index (n.deployment_info deployment index w).0
          later
  deployment_attempt_within deployment (suc ticks) index w (status, last, e, inr (lt, inl done)) =
      let new : leb last index ≡ false = ground (arith, lt) in
      let good : (status == "successful") ≡ true = ground (arith, done) in
      rw (e, new, good, poll, deployment_attempt) refl
  deployment_attempt_within deployment (suc ticks) index w
        (status, last, e, inr (lt, inr (runs, later))) =
      let new : leb last index ≡ false = ground (arith, lt) in
      let running : (status == "running") ≡ true = ground (arith, runs) in
      let going = ap (λ name. name == "successful") runs ∙ running_not_done in
      waits deployment ticks index last w (rw (e, new, going, running, deployment_attempt) refl)
      ∙ deployment_attempt_within deployment ticks last (n.deployment_info deployment index w).0
          later

module _ {W : Type 0} (n : NomadJobs W) (patience : Patience) where
  confirmed :
      (evaluation deployment : String) (w w' : W)
      → get_deployment_id n patience evaluation w ≡ (w', ok deployment)
      → scale_confirmation n patience evaluation w
        ≡ poll false (deployment_attempt n deployment) patience.deployment_ticks 1 w'
  unfolding scale_confirmation
  confirmed evaluation deployment w w' e =
      ap
        (λ (r : W × Result String). elim r.1 as (λ x. W × Bool) [
          | err ↦ (r.0, false)
          | ok d ↦ poll false (deployment_attempt n d) patience.deployment_ticks 1 r.0
        ])
        e

  -- A scaling is confirmed exactly if, before the timeouts, Nomad names a deployment of the evaluation
  -- and then answers that it was successful: errors about the evaluation and answers that are not new
  -- are waited out, and everything else about the deployment is a failure.
  pub scale_confirmation_iff :
      (evaluation : String) (w : W)
      → ((scale_confirmation n patience evaluation w).1 ≡ true) ↔ (
          (deployment : String) × (w' : W) × IsDeployed n evaluation patience.evaluation_ticks w
            deployment w'
          × IsSuccessful n deployment patience.deployment_ticks 1 w')
  unfolding scale_confirmation get_deployment_id
  scale_confirmation_iff evaluation w = (forth, back)
    where
      forth :
          (scale_confirmation n patience evaluation w).1 ≡ true
          → (deployment : String) × (w' : W) × IsDeployed n evaluation patience.evaluation_ticks w
              deployment w'
            × IsSuccessful n deployment patience.deployment_ticks 1 w'
      forth h = elim (Result-cases (get_deployment_id n patience evaluation w).1) [
        | inl e ↦ absurd (ground (arith, rw (e, scale_confirmation) at h))
        | inr (deployment, e) ↦
            let w' = (get_deployment_id n patience evaluation w).0 in
            (
              deployment,
              w',
              get_deployment_id-IsDeployed n evaluation patience.evaluation_ticks w w' deployment
                  (ap (λ r. (w', r)) e),
              deployment_attempt-IsSuccessful n deployment patience.deployment_ticks 1 w'
                  (rw (e, scale_confirmation) at h),
            )
      ]

      back :
          ((deployment : String) × (w' : W) × IsDeployed n evaluation patience.evaluation_ticks w
              deployment w'
            × IsSuccessful n deployment patience.deployment_ticks 1 w')
          → (scale_confirmation n patience evaluation w).1 ≡ true
      back (deployment, w', found, good) =
          let got : get_deployment_id n patience evaluation w ≡ (w', ok deployment) =
            get_deployment_id_within n evaluation patience.evaluation_ticks w w' deployment found in
          ap (λ r. r.1) (confirmed evaluation deployment w w' got)
          ∙ deployment_attempt_within n deployment patience.deployment_ticks 1 w' good

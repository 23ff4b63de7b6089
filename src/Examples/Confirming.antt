-- ===== src/Examples/Confirming.antt =====
-- The confirmation of a scaling at concrete inputs: a world that counts the requests.
use replicator.Base.{
  ℕ, zero, suc, if◌then◌else◌, leb, String, string_eq, true, false, Result, ok, err, none, ◌≡◌, ◌↔◌,
  refl,
}
use replicator.Structs.{value}
use replicator.JobScaling.{
  NomadJobs, Patience, scale_confirmation, get_deployment_id, evaluation_attempt,
  deployment_attempt,
}
use replicator.JobScaling.Deployed.{IsDeployed}
use replicator.JobScaling.Confirmed.{IsSuccessful, scale_confirmation_iff}
use replicator.Polling.{poll, poll_again}
use replicator.Examples.Jobs.{api_job}

abbrev evaluated : ℕ → Result String
evaluated zero = err
evaluated (suc zero) = ok ""
evaluated (suc (suc w)) = ok "deployment"

abbrev deployed : ℕ → Result (String × ℕ)
deployed w = if leb w 3 then ok ("running", 5) else ok ("successful", 7)

-- Nomad fails once, has no deployment once, and says once that the deployment is running.
abbrev answers : NomadJobs ℕ
answers = record {
  job_info = λ name w. (w, value api_job);
  register_job = λ job w. (w, ok "evaluation");
  evaluation_info = λ id w. (suc w, evaluated w);
  deployment_info = λ id index w. (suc w, deployed w);
  latest_deployment = λ name w. (w, ok none);
}

abbrev ticks : Patience
ticks = record { evaluation_ticks = 3; deployment_ticks = 2 }

confirms : scale_confirmation answers ticks "evaluation" 0 ≡ (5, true)
unfolding scale_confirmation get_deployment_id evaluation_attempt deployment_attempt poll poll_again
    string_eq
confirms = refl

times_out :
    (scale_confirmation answers (record ticks { deployment_ticks = 1 }) "evaluation" 0).1 ≡ false
unfolding scale_confirmation get_deployment_id evaluation_attempt deployment_attempt poll poll_again
    string_eq
times_out = refl

scale_confirmation_iff_example : ((scale_confirmation answers ticks "evaluation" 0).1 ≡ true) ↔ (
    (deployment : String) × (w' : ℕ) × IsDeployed answers "evaluation" 3 0 deployment w'
    × IsSuccessful answers deployment 2 1 w')
scale_confirmation_iff_example = scale_confirmation_iff answers ticks "evaluation" 0

-- ===== src/JobScaling/Safety.antt =====
-- What a call of `JobGroupScale` can do to the outside world.
use replicator.Base.{
  ℕ, zero, suc, String, Bool, false, List, ◌≡◌, refl, if_property, ◌==◌, string_eq, leb, Result, ok,
  err, All,
}
use replicator.Base.Int.{IsInt}
use replicator.Polling.{Tick, again, finished, poll, poll_again}
use replicator.Structs.{ScalingState, GroupScalingPolicy, Job, TaskGroup, Reply, value, error}
use replicator.World.{Consul}
use replicator.JobScaling.{
  NomadJobs, Patience, resize, scale_confirmation, get_deployment_id, evaluation_attempt,
  deployment_attempt, confirm, submit, job_group_scale,
}
use replicator.JobScaling.Bounds.{IsBounded, AreResized, resize-AreResized}

-- What only the submission of a job may change: the other calls keep it.
pub record IsKept {W B : Type 0} (c : Consul W B) (n : NomadJobs W) (P : W → Type 0) : Type 0 where
  pub now : (w : W) → P w → P (c.now w).0
  pub job_info : (name : String) (w : W) → P w → P (n.job_info name w).0
  pub evaluation_info : (id : String) (w : W) → P w → P (n.evaluation_info id w).0
  pub deployment_info : (id : String) (index : ℕ) (w : W) → P w → P (n.deployment_info id index w).0

module _ {W S A : Type 0} (P : W → Type 0) (late : A) (attempt : S → W → W × S × Tick A) where
  -- A loop over ticks keeps what its attempt keeps.
  poll_keeps :
      ((s : S) (w : W) → P w → P (attempt s w).0)
      → (ticks : ℕ) (s : S) (w : W) → P w
      → P (poll late attempt ticks s w).0
  unfolding poll
  poll_keeps kept zero s w h = h
  poll_keeps kept (suc ticks) s w h =
      go (attempt s w).2 refl (poll_keeps kept ticks (attempt s w).1 (attempt s w).0 (kept s w h))
    where
      go :
          (t : Tick A)
          → (attempt s w).2 ≡ t
          → P (poll late attempt ticks (attempt s w).1 (attempt s w).0).0
          → P (poll late attempt (suc ticks) s w).0
      go again e rest = rw (e, poll) rest
      go (finished a) e rest = rw (e, poll) (kept s w h)

module _ {W B : Type 0} (c : Consul W B) (n : NomadJobs W) (patience : Patience) (P : W → Type 0)
    (kept : IsKept c n P) where
  get_deployment_id_keeps :
      (evaluation : String) (w : W) → P w → P (get_deployment_id n patience evaluation w).0
  unfolding get_deployment_id poll_again evaluation_attempt
  get_deployment_id_keeps evaluation w h =
      poll_keeps P err
        (λ (s : Unit {0}) w. let (w', t) = evaluation_attempt n evaluation w in (w', s, t))
        (λ s w h. kept.evaluation_info evaluation w h) patience.evaluation_ticks tt w h

  deployment_attempt_keeps :
      (deployment : String) (index : ℕ) (w : W)
      → P w
      → P (deployment_attempt n deployment index w).0
  unfolding deployment_attempt
  deployment_attempt_keeps deployment index w h = go (n.deployment_info deployment index w).1 refl
    where
      go :
          (r : Result (String × ℕ))
          → (n.deployment_info deployment index w).1 ≡ r
          → P (deployment_attempt n deployment index w).0
      go err e = rw (e, deployment_attempt) (kept.deployment_info deployment index w h)
      go (ok (status, last)) e =
          let h' = kept.deployment_info deployment index w h in
          rw (e, deployment_attempt)
            (if_property (λ (r : W × ℕ × Tick Bool). P r.0) (leb last index) (λ e. h')
              (λ e.
                if_property (λ (r : W × ℕ × Tick Bool). P r.0) (status == "successful") (λ e. h')
                  (λ e.
                    if_property (λ (r : W × ℕ × Tick Bool). P r.0) (status == "running") (λ e. h')
                      (λ e. h'))))

  confirm_keeps :
      (evaluation : String) (s : ScalingState) (w : W)
      → P w
      → P (confirm n patience evaluation s w).0
  unfolding confirm scale_confirmation
  confirm_keeps evaluation s w h =
      go (get_deployment_id n patience evaluation w).1 refl (get_deployment_id_keeps evaluation w h)
    where
      go :
          (r : Result String)
          → (get_deployment_id n patience evaluation w).1 ≡ r
          → P (get_deployment_id n patience evaluation w).0
          → P (confirm n patience evaluation s w).0
      go err e h' = rw (e, confirm, scale_confirmation) h'
      go (ok deployment) e h' =
          rw (e, confirm, scale_confirmation)
            (poll_keeps P false (deployment_attempt n deployment)
              (deployment_attempt_keeps deployment) patience.deployment_ticks 1 _ h')

  submit_keeps :
      (job : Job) (s : ScalingState) (w : W)
      → P (n.register_job job w).0
      → P (submit c n patience job s w).0
  unfolding submit
  submit_keeps job s w h = go (n.register_job job w).1 refl
    where
      go : (r : Result String) → (n.register_job job w).1 ≡ r → P (submit c n patience job s w).0
      go err e = rw (e, submit) (kept.now (n.register_job job w).0 h)
      go (ok evaluation) e =
          rw (e, submit)
            (confirm_keeps evaluation
              (record s { last_scaling_event = (c.now (n.register_job job w).0).1 })
              (c.now (n.register_job job w).0).0 (kept.now (n.register_job job w).0 h))

  -- Whatever the calls other than the submission of a job keep, and every submission keeps of the
  -- job that Nomad returned with nothing changed but the count of the named group, by one and
  -- within the bounds of the policy, `JobGroupScale` keeps.
  pub job_group_scale_keeps :
      {F : Type 0} (name : String) (p : GroupScalingPolicy F) (s : ScalingState) (w : W)
      → IsBounded p
      → ((job : Job) → (n.job_info name w).1 ≡ value job → All (λ g. IsInt g.count) job.task_groups)
      → ((job : Job) (groups : List TaskGroup)
          → (n.job_info name w).1 ≡ value job
          → AreResized p job.task_groups groups
          → P (n.job_info name w).0
          → P (n.register_job (record job { task_groups = groups }) (n.job_info name w).0).0)
      → P w
      → P (job_group_scale c n patience name p s w).0
  unfolding job_group_scale
  job_group_scale_keeps {F} name p s w bounded ints submitted h = go (n.job_info name w).1 refl
    where
      h' : P (n.job_info name w).0
      h' = kept.job_info name w h

      go :
          (r : Reply Job)
          → (n.job_info name w).1 ≡ r
          → P (job_group_scale c n patience name p s w).0
      go (error text) e = rw (e, job_group_scale) h'
      go (value job) e =
          let groups = (resize p job.task_groups s).0 in
          rw (e, job_group_scale)
            (if_property (λ (r : W × ScalingState). P r.0) (resize p job.task_groups s).2
              (λ permitted.
                submit_keeps (record job { task_groups = groups }) (resize p job.task_groups s).1
                  (n.job_info name w).0
                  (submitted job groups e
                    (resize-AreResized p job.task_groups s bounded (ints job e) permitted) h'))
              (λ refused. h'))

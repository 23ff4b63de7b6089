-- ===== src/JobScaling.antt =====
-- client/job_scaling.go: the count of one task group is raised or lowered by one, and the deployment
-- that follows is watched. Nomad's API is a parameter; logging and metrics are left out.
pub mod Evaluate
pub mod Rounds
pub mod Bounds
pub mod Safety
pub mod Gates
pub mod Measured
pub mod Whole
pub mod Deployed
pub mod Confirmed
use replicator.Base.{
  ℕ, String, Bool, true, false, ◌&&◌, ◌||◌, Option, none, some, List, [], ◌∷◌, if◌then◌else◌, ◌==◌,
  string_eq, leb, Result, ok, err, M, pure, ◌>>=◌,
}
use replicator.Base.Int.{ℤ, pos, lez, add_int, sub_int}
use replicator.Polling.{Tick, again, finished, poll, poll_again}
use replicator.Structs.{
  ScalingState, Direction, out, inward, GroupScalingPolicy, Job, TaskGroup, Reply, value, error,
}
use replicator.World.{Consul}

pub record NomadJobs (W : Type 0) : Type 0 where
  -- `Jobs().Info`
  pub job_info : String → M W (Reply Job)
  -- `Jobs().Register`: the identifier of the evaluation.
  pub register_job : Job → M W (Result String)
  -- `Evaluations().Info`: the identifier of the deployment, empty while there is none.
  pub evaluation_info : String → M W (Result String)
  -- `Deployments().Info` at a wait index: the status and the last index.
  pub deployment_info : String → ℕ → M W (Result (String × ℕ))
  -- `Jobs().LatestDeployment`: the status of the deployment, if there is one.
  pub latest_deployment : String → M W (Result (Option String))

-- How many ticks come before `evaluationTimeOut` and before `deploymentTimeOut`.
pub record Patience : Type 0 where
  pub evaluation_ticks : ℕ
  pub deployment_ticks : ℕ

module _ {F : Type 0} (p : GroupScalingPolicy F) where
  -- The constraint that `JobGroupScale` tests of each task group.
  unfoldable pub constrained : TaskGroup → Bool
  constrained g = elim p.scale_direction [
    | out ↦ lez p.max g.count
    | inward ↦ lez g.count p.min
    | _ ↦ false
  ]

  -- The change of a task group's count and of the requests that the state counts.
  unfoldable pub resize_group : TaskGroup → ScalingState → TaskGroup × ScalingState
  resize_group g s =
      if g.name == p.group_name
      then elim p.scale_direction [
        | out ↦ (
          record g { count = add_int g.count (pos 1) },
          record s { scale_out_requests = add_int s.scale_out_requests (pos 1) },
        )
        | inward ↦ (
          record g { count = sub_int g.count (pos 1) },
          record s { scale_in_requests = add_int s.scale_in_requests (pos 1) },
        )
        | _ ↦ (g, s)
      ]
      else (g, s)

  -- The loop over the task groups: the groups, the state, and whether no constraint was met.
  unfoldable pub resize : List TaskGroup → ScalingState → List TaskGroup × ScalingState × Bool
  unfolding constrained resize_group
  resize [] s = ([], s, true)
  resize (g ∷ groups) s =
      if constrained g
      then (g ∷ groups, s, false)
      else (let (g', s') = resize_group g s in
          let (groups', s'', permitted) = resize groups s' in (g' ∷ groups', s'', permitted))

module _ {W : Type 0} (n : NomadJobs W) where
  unfoldable pub evaluation_attempt : String → W → W × Tick (Result String)
  evaluation_attempt evaluation w =
      let (w', reply) = n.evaluation_info evaluation w in
      (
        w',
        elim reply [
          | err ↦ again
          | ok deployment ↦ if deployment == "" then again else finished (ok deployment)
        ],
      )

  -- A tick of `scaleConfirmation`, which remembers the wait index.
  unfoldable pub deployment_attempt : String → ℕ → W → W × ℕ × Tick Bool
  deployment_attempt deployment index w =
      let (w', reply) = n.deployment_info deployment index w in
      elim reply [
        | err ↦ (w', index, finished false)
        | ok (status, last) ↦
            if leb last index
            then (w', index, again)
            else if status == "successful"
            then (w', last, finished true)
            else if status == "running"
            then (w', last, again)
            else (w', last, finished false)
      ]

  -- `IsJobInDeployment`. The source compares with the description of a paused deployment.
  unfoldable pub is_job_in_deployment : String → M W Bool
  is_job_in_deployment name w =
      let (w', reply) = n.latest_deployment name w in
      (
        w',
        elim reply [
          | err ↦ false
          | ok none ↦ false
          | ok (some status) ↦ status == "running" || status == "Deployment is paused"
        ],
      )

module _ {W : Type 0} (n : NomadJobs W) (patience : Patience) where
  -- `getDeploymentID`
  unfoldable pub get_deployment_id : String → M W (Result String)
  unfolding evaluation_attempt
  get_deployment_id evaluation =
      poll_again err (evaluation_attempt n evaluation) patience.evaluation_ticks

  -- `scaleConfirmation`
  unfoldable pub scale_confirmation : String → M W Bool
  unfolding get_deployment_id deployment_attempt
  scale_confirmation evaluation w =
      let (w', reply) = get_deployment_id evaluation w in
      elim reply [
        | err ↦ (w', false)
        | ok deployment ↦
            poll false (deployment_attempt n deployment) patience.deployment_ticks 1 w'
      ]

  -- What follows a submission that Nomad accepted.
  unfoldable pub confirm : String → ScalingState → M W ScalingState
  unfolding scale_confirmation
  confirm evaluation s w =
      let (w', success) = scale_confirmation evaluation w in
      (w', if success then s else record s { failure_count = add_int s.failure_count (pos 1) })

module _ {W B : Type 0} (c : Consul W B) (n : NomadJobs W) (patience : Patience) where
  -- What follows the loop over the task groups.
  unfoldable pub submit : Job → ScalingState → M W ScalingState
  unfolding confirm
  submit job s w =
      let (w1, reply) = n.register_job job w in
      let (w2, time) = c.now w1 in
      let s' : ScalingState = record s { last_scaling_event = time } in
      elim reply [ err ↦ (w2, s') | ok evaluation ↦ confirm n patience evaluation s' w2 ]

  -- `JobGroupScale`
  unfoldable pub job_group_scale :
      {F : Type 0} → String → GroupScalingPolicy F → ScalingState → M W ScalingState
  unfolding resize submit
  job_group_scale name p s w =
      let (w', reply) = n.job_info name w in
      elim reply [
        | error e ↦ (w', s)
        | value job ↦
            let (groups, s', permitted) = resize p job.task_groups s in
            if permitted then submit (record job { task_groups = groups }) s' w' else (w', s')
      ]

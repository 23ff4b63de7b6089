-- ===== src/JobScaling/Measured.antt =====
-- What the evaluation of a job changes: the measurements of a policy, and nothing of the world.
use replicator.Base.{
  String, ◌&&◌, ◌==◌, string_eq, Option, none, some, List, [], ◌∷◌, ◌≡◌, ◌∙◌, ap, refl, if_property,
  All, Result, ok, err,
}
use replicator.Base.Int.{ℤ, pos}
use replicator.Floats.{Floats}
use replicator.Structs.{GroupScalingPolicy, Job, Reply, value, error}
use replicator.Capacity.{status_running, desired_run}
use replicator.JobScaling.{NomadJobs}
use replicator.JobScaling.Evaluate.{
  NomadAllocations, AllocationStub, most_utilized_group_resource, choose_direction,
  get_task_group_resources, get_allocation_stats, add_allocation, add_allocations,
  get_job_allocations, evaluate_usage, evaluate_group, evaluate_job_scaling,
}

-- The reading of allocations keeps a property of the world.
pub record IsRead {W A : Type 0} (n : NomadJobs W) (a : NomadAllocations W A) (P : W → Type 0)
    : Type 0 where
  pub job_info : (name : String) (w : W) → P w → P (n.job_info name w).0
  pub allocations : (name : String) (w : W) → P w → P (a.allocations name w).0
  pub allocation_info : (id : String) (w : W) → P w → P (a.allocation_info id w).0
  pub allocation_stats : (alloc : A) (w : W) → P w → P (a.allocation_stats alloc w).0

module _ {F : Type 0} where
  -- The policy `q` with the measurements and the direction of `p`.
  abbrev pub measured : GroupScalingPolicy F → GroupScalingPolicy F → GroupScalingPolicy F
  measured p q = record q {
    tasks = p.tasks;
    scaling_metric = p.scaling_metric;
    scale_direction = p.scale_direction;
  }

  -- Every policy of a list has a property, up to other measurements.
  abbrev pub AreRevised : (GroupScalingPolicy F → Type 0) → List (GroupScalingPolicy F) → Type 0
  AreRevised R policies = All (λ p. (q : GroupScalingPolicy F) × R q × (p ≡ measured p q)) policies

module _ {F W A : Type 0} (fl : Floats F) (n : NomadJobs W) (a : NomadAllocations W A)
    (P : W → Type 0) (kept : IsRead n a P) where
  -- The world is kept, and the policy is the old one with other measurements.
  abbrev IsMeasured : GroupScalingPolicy F → W × (GroupScalingPolicy F × Option String) → Type 0
  IsMeasured q r = P r.0 × (r.1.0 ≡ measured r.1.0 q)

  get_task_group_resources-IsMeasured :
      (name : String) (q : GroupScalingPolicy F) (w : W)
      → P w
      → IsMeasured q (get_task_group_resources fl n name q w)
  unfolding get_task_group_resources
  get_task_group_resources-IsMeasured name q w h = go (n.job_info name w).1 refl
    where
      go :
          (r : Reply Job)
          → (n.job_info name w).1 ≡ r
          → IsMeasured q (get_task_group_resources fl n name q w)
      go (error text) e = rw (e, get_task_group_resources) (kept.job_info name w h, refl)
      go (value job) e = rw (e, get_task_group_resources) (kept.job_info name w h, refl)

  add_allocation_keeps :
      (p : GroupScalingPolicy F) (stub : AllocationStub) (sums : F × F × ℤ) (w : W)
      → P w
      → P (add_allocation fl a p stub sums w).0
  unfolding add_allocation get_allocation_stats
  add_allocation_keeps p stub sums w h = go (a.allocation_info stub.id w).1 refl
    where
      read : P (a.allocation_info stub.id w).0
      read = kept.allocation_info stub.id w h

      go :
          (r : Result (Option A))
          → (a.allocation_info stub.id w).1 ≡ r
          → P (add_allocation fl a p stub sums w).0
      go err e = rw (e, add_allocation) read
      go (ok none) e = rw (e, add_allocation) read
      go (ok (some alloc)) e = rw (e, add_allocation) (kept.allocation_stats alloc _ read)

  add_allocations_keeps :
      (p : GroupScalingPolicy F) (stubs : List AllocationStub) (sums : F × F × ℤ) (w : W)
      → P w
      → P (add_allocations fl a p stubs sums w).0
  unfolding add_allocations
  add_allocations_keeps p [] sums w h = h
  add_allocations_keeps p (stub ∷ stubs) sums w h = add_allocations_keeps p stubs _ _ (
      if_property (λ (r : W × (F × F × ℤ)). P r.0)
        (stub.client_status == status_running && stub.desired_status == desired_run)
        (λ running. add_allocation_keeps p stub sums w h) (λ idle. h))

  evaluate_usage-IsMeasured :
      (name : String) (q : GroupScalingPolicy F) (w : W)
      → P w
      → IsMeasured q (evaluate_usage fl n a name q w)
  unfolding evaluate_usage get_job_allocations most_utilized_group_resource choose_direction
  evaluate_usage-IsMeasured name q w h = go (a.allocations name w).1 refl
    where
      read : P (a.allocations name w).0
      read = kept.allocations name w h

      go :
          (r : Reply (List AllocationStub))
          → (a.allocations name w).1 ≡ r
          → IsMeasured q (evaluate_usage fl n a name q w)
      go (error text) e = rw (e, evaluate_usage) (read, refl)
      go (value stubs) e =
          rw (e, evaluate_usage)
            (
              add_allocations_keeps q stubs (fl.zero, fl.zero, pos 0) (a.allocations name w).0 read,
              refl,
            )

  evaluate_group-IsMeasured :
      (name : String) (q : GroupScalingPolicy F) (w : W)
      → P w
      → IsMeasured q (evaluate_group fl n a name q w)
  unfolding evaluate_group
  evaluate_group-IsMeasured name q w h = go (get_task_group_resources fl n name q w).1.1 refl
    where
      held : IsMeasured q (get_task_group_resources fl n name q w)
      held = get_task_group_resources-IsMeasured name q w h

      go :
          (failure : Option String)
          → (get_task_group_resources fl n name q w).1.1 ≡ failure
          → IsMeasured q (evaluate_group fl n a name q w)
      go (some text) e = rw (e, evaluate_group) held
      go none e =
          let (w1, (p1, _)) = get_task_group_resources fl n name q w in
          let usage = evaluate_usage-IsMeasured name p1 w1 held.0 in
          rw (e, evaluate_group)
            (usage.0, usage.1 ∙ ap (measured (evaluate_usage fl n a name p1 w1).1.0) held.1)

  -- The evaluation of a job keeps of the world what the reading of allocations keeps, and leaves
  -- every policy as it was but for its measurements and its direction.
  pub evaluate_job_scaling-AreRevised :
      (R : GroupScalingPolicy F → Type 0) (name : String) (policies : List (GroupScalingPolicy F))
      (w : W)
      → All R policies
      → P w
      → let r = evaluate_job_scaling fl n a name policies w in P r.0 × AreRevised R r.1.0
  unfolding evaluate_job_scaling
  evaluate_job_scaling-AreRevised R name [] w all h = (h, tt)
  evaluate_job_scaling-AreRevised R name (q ∷ policies) w all h =
      go (evaluate_group fl n a name q w).1.1 refl (
        evaluate_job_scaling-AreRevised R name policies (evaluate_group fl n a name q w).0 all.1
          m.0)
    where
      m : IsMeasured q (evaluate_group fl n a name q w)
      m = evaluate_group-IsMeasured name q w h

      unread : (qs : List (GroupScalingPolicy F)) → All R qs → AreRevised R qs
      unread [] all = tt
      unread (q ∷ qs) all = ((q, all.0, refl), unread qs all.1)

      go :
          (failure : Option String)
          → (evaluate_group fl n a name q w).1.1 ≡ failure
          → (let rest =
                evaluate_job_scaling fl n a name policies (evaluate_group fl n a name q w).0 in
              P rest.0 × AreRevised R rest.1.0)
          → let r = evaluate_job_scaling fl n a name (q ∷ policies) w in P r.0 × AreRevised R r.1.0
      go (some text) e rest =
          rw (e, evaluate_job_scaling) (m.0, ((q, all.0, m.1), unread policies all.1))
      go none e rest = rw (e, evaluate_job_scaling) (rest.0, ((q, all.0, m.1), rest.1))

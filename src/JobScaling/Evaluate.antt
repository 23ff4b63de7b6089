-- ===== src/JobScaling/Evaluate.antt =====
-- EvaluateJobScaling of client/nomad.go: what a job uses, measured against the policies of its groups.
-- Nomad's API, `float64` and `percent.PercentOf` are parameters.
use replicator.Base.{
  ℕ, ◌/◌, String, ◌&&◌, Option, none, some, List, [], ◌∷◌, if◌then◌else◌, ◌==◌, string_eq, Result,
  ok, err, M,
}
use replicator.Base.Int.{ℤ, pos, ltz, add_int, wrap}
use replicator.Floats.{Floats}
use replicator.Structs.{
  Direction, out, inward, none_wanted, GroupScalingPolicy, AllocationResources, processor, memory,
  JobTask, TaskGroup, Reply, value, error,
}
use replicator.Capacity.{status_running, desired_run}
use replicator.JobScaling.{NomadJobs}

-- An entry of the list of a job's allocations.
pub record AllocationStub : Type 0 where
  pub id : String
  pub client_status : String
  pub desired_status : String

-- The statistics of an allocation: the ticks of the processor as `int(math.Floor(…))` has them, and
-- the bytes of resident memory.
pub record AllocationStats : Type 0 where
  pub total_ticks : ℤ
  pub rss : ℕ

pub record NomadAllocations (W A : Type 0) : Type 0 where
  -- `Jobs().Allocations`
  pub allocations : String → M W (Reply (List AllocationStub))
  -- `Allocations().Info`, whose answer may be nil.
  pub allocation_info : String → M W (Result (Option A))
  -- `Allocations().Stats`
  pub allocation_stats : A → M W (Result AllocationStats)

abbrev pub bytes_per_megabyte : ℕ
bytes_per_megabyte = 1024000

module _ {F : Type 0} (fl : Floats F) where
  -- `helper.Max` at two values.
  unfoldable pub max_of_two : F → F → F
  max_of_two a b = if fl.lt a b then b else a

  -- `MostUtilizedGroupResource`
  unfoldable pub most_utilized_group_resource : GroupScalingPolicy F → GroupScalingPolicy F
  unfolding max_of_two
  most_utilized_group_resource p =
      let max = max_of_two p.tasks.cpu_percent p.tasks.memory_percent in
      record p {
        scaling_metric =
            if fl.eq max p.tasks.cpu_percent
            then processor
            else if fl.eq max p.tasks.memory_percent
            then memory
            else p.scaling_metric;
      }

  -- The `switch` and the `if` that set the direction in `EvaluateJobScaling`.
  unfoldable pub scale_out_direction : GroupScalingPolicy F → Direction
  scale_out_direction p = elim p.scaling_metric [
    | processor ↦ if fl.lt p.scale_out_cpu p.tasks.cpu_percent then out else none_wanted
    | memory ↦ if fl.lt p.scale_out_mem p.tasks.memory_percent then out else none_wanted
    | _ ↦ none_wanted
  ]

  unfoldable pub choose_direction : GroupScalingPolicy F → GroupScalingPolicy F
  unfolding scale_out_direction
  choose_direction p = record p {
    scale_direction =
        if fl.lt p.tasks.cpu_percent p.scale_in_cpu && fl.lt p.tasks.memory_percent p.scale_in_mem
        then inward
        else scale_out_direction p;
  }

  add_tasks : AllocationResources F → List JobTask → AllocationResources F
  add_tasks r [] = r
  add_tasks r (t ∷ tasks) =
      add_tasks
        (record r {
          cpu_mhz = add_int r.cpu_mhz t.cpu;
          memory_mb = add_int r.memory_mb t.memory_mb;
        })
        tasks

  pub add_groups : AllocationResources F → List TaskGroup → AllocationResources F
  unfolding add_tasks
  add_groups r [] = r
  add_groups r (g ∷ groups) = add_groups (add_tasks r g.tasks) groups

  module _ {W : Type 0} (n : NomadJobs W) where
    -- `GetTaskGroupResources`: the policy, and the error.
    unfoldable pub get_task_group_resources :
        String → GroupScalingPolicy F → M W (GroupScalingPolicy F × Option String)
    unfolding add_groups
    get_task_group_resources name p w =
        let (w', reply) = n.job_info name w in
        elim reply [
          | error e ↦ (w', (p, some e))
          | value job ↦
              let zeroed : AllocationResources F = record p.tasks {
                cpu_mhz = pos 0;
                memory_mb = pos 0;
              } in
              (w', (record p { tasks = add_groups zeroed job.task_groups }, none))
        ]

  module _ {W A : Type 0} (a : NomadAllocations W A) where
    -- `GetAllocationStats`: the shares of the processor and the memory.
    unfoldable pub get_allocation_stats : A → GroupScalingPolicy F → M W (F × F)
    get_allocation_stats alloc p w =
        let (w', reply) = a.allocation_stats alloc w in
        (
          w',
          elim reply [
            | err ↦ (fl.zero, fl.zero)
            | ok stats ↦ (
              fl.percent_of stats.total_ticks p.tasks.cpu_mhz,
              fl.percent_of (wrap (pos (stats.rss / bytes_per_megabyte))) p.tasks.memory_mb,
            )
          ],
        )

    -- One running allocation, on top of the shares and the number of those before it.
    unfoldable pub add_allocation :
        GroupScalingPolicy F → AllocationStub → F × F × ℤ → M W (F × F × ℤ)
    unfolding get_allocation_stats
    add_allocation p stub (cpu, mem, count) w =
        let (w', reply) = a.allocation_info stub.id w in
        elim reply [
          | err ↦ (w', (cpu, mem, count))
          | ok none ↦ (w', (cpu, mem, count))
          | ok (some alloc) ↦
              let (w'', (c, m)) = get_allocation_stats alloc p w' in
              (w'', (fl.add cpu c, fl.add mem m, add_int count (pos 1)))
        ]

    unfoldable pub add_allocations :
        GroupScalingPolicy F → List AllocationStub → F × F × ℤ → M W (F × F × ℤ)
    unfolding add_allocation
    add_allocations p [] sums w = (w, sums)
    add_allocations p (stub ∷ stubs) sums w =
        let (w', sums') =
          (if stub.client_status == status_running && stub.desired_status == desired_run
            then add_allocation p stub sums w
            else (w, sums)) in
        add_allocations p stubs sums' w'

    -- `GetJobAllocations`
    unfoldable pub get_job_allocations :
        List AllocationStub → GroupScalingPolicy F → M W (GroupScalingPolicy F)
    unfolding add_allocations
    get_job_allocations stubs p w =
        let (w', (cpu, mem, count)) = add_allocations p stubs (fl.zero, fl.zero, pos 0) w in
        (
          w',
          record p {
            tasks = record p.tasks {
              cpu_percent = if ltz (pos 0) count then fl.div cpu (fl.of_int count) else fl.zero;
              memory_percent = if ltz (pos 0) count then fl.div mem (fl.of_int count) else fl.zero;
            };
          },
        )

  module _ {W A : Type 0} (n : NomadJobs W) (a : NomadAllocations W A) where
    -- What follows `GetTaskGroupResources` in the loop of `EvaluateJobScaling`.
    unfoldable pub evaluate_usage :
        String → GroupScalingPolicy F → M W (GroupScalingPolicy F × Option String)
    unfolding get_job_allocations most_utilized_group_resource choose_direction
    evaluate_usage name p w =
        let (w1, reply) = a.allocations name w in
        elim reply [
          | error e ↦ (w1, (p, some e))
          | value stubs ↦
              let (w2, p') = get_job_allocations a stubs p w1 in
              (w2, (choose_direction (most_utilized_group_resource p'), none))
        ]

    -- The body of the loop of `EvaluateJobScaling`: the policy, and the error.
    unfoldable pub evaluate_group :
        String → GroupScalingPolicy F → M W (GroupScalingPolicy F × Option String)
    unfolding get_task_group_resources evaluate_usage
    evaluate_group name p w =
        let (w', (p', failure)) = get_task_group_resources n name p w in
        elim failure [ some e ↦ (w', (p', some e)) | none ↦ evaluate_usage name p' w' ]

    -- `EvaluateJobScaling`: the policies, which are written to in place, and the error.
    unfoldable pub evaluate_job_scaling :
        String → List (GroupScalingPolicy F) → M W (List (GroupScalingPolicy F) × Option String)
    unfolding evaluate_group
    evaluate_job_scaling name [] w = (w, ([], none))
    evaluate_job_scaling name (p ∷ policies) w =
        let (w', (p', failure)) = evaluate_group name p w in
        elim failure [
          | some e ↦ (w', (p' ∷ policies, some e))
          | none ↦
              let (w'', (policies', failure')) = evaluate_job_scaling name policies w' in
              (w'', (p' ∷ policies', failure'))
        ]

-- ===== src/Examples/Serving.antt =====
-- The ticks of a server at concrete inputs: one that never gets the lock, and one that leads.
use replicator.Base.{
  ℕ, String, string_eq, Bool, true, false, Option, some, none, List, [], ◌∷◌, ◌≡◌, refl, ap, Result,
  ok, err, M, if_property, ◌==◌,
}
use replicator.Base.Dict.{lookup, insert}
use replicator.Base.Int.{pos}
use replicator.Structs.{value, NodeRegistry, new_node_registry, new_scaling_state, new_worker_pool}
use replicator.Registry.{register, new_scaling_provider}
use replicator.Leader.{
  Sessions, LeaderCandidate, new_leader_candidate, leader_election, campaign, acquire_leadership,
  with_holder, request_lock, node_protection_check,
}
use replicator.JobScaling.{NomadJobs}
use replicator.JobScaling.Evaluate.{NomadAllocations}
use replicator.State.{read_state}
use replicator.Scaling.{initial_state}
use replicator.Scaling.Effects.{worker_pool_scaling_failsafe}
use replicator.Server.{
  Running, Event, leader_tick, job_tick, cluster_tick, tick, run_ticks, cluster_round, scale_pools,
}
use replicator.Server.Follower.{run_ticks-IsFollowing}
use replicator.Examples.Concrete.{World, new_world, consul, numbers, capacity_api}
use replicator.Examples.Jobs.{policies, patience, api_job}
use replicator.Examples.Scaling.{machines, one_node, tripped, refused, stored_pool, one_node-lookup}

-- Consul gives the lock to nobody, as in the delay after a holder's session ends.
abbrev sessions : Sessions World
sessions = record {
  holder = λ key w. (w, ok none);
  session_info = λ session w. (w, ok true);
  acquire = λ key session w. (w, ok false);
  create_session = λ ttl w. (w, ok "session");
  release = λ key session w. w;
  stop_renewal = λ w. w;
}

abbrev jobs_api : NomadJobs World
jobs_api = record {
  job_info = λ name w. (w, value api_job);
  register_job = λ job w. (w, ok "evaluation");
  evaluation_info = λ id w. (w, ok "deployment");
  deployment_info = λ id index w. (w, ok ("successful", 7));
  latest_deployment = λ name w. (w, ok none);
}

abbrev allocations_api : NomadAllocations World ℕ
allocations_api = record {
  allocations = λ name w. (w, value []);
  allocation_info = λ id w. (w, ok none);
  allocation_stats = λ alloc w. (w, err);
}

abbrev lookup_api : String → M World (Result String)
lookup_api id w = (w, err)

abbrev follower : Running (Option ℕ)
follower = record {
  candidate = new_leader_candidate "replicator/config/leader" (pos 12);
  registry = one_node;
  policies = policies;
}

abbrev IsUnsent : World → Type 0
IsUnsent w = w.sent ≡ []

elections :
    (l : LeaderCandidate) (w : World) → IsUnsent w → IsUnsent (leader_election sessions l w).0
unfolding leader_election campaign acquire_leadership with_holder request_lock
elections l w h =
    if_property (λ (r : World × (LeaderCandidate × Bool)). IsUnsent r.0) (l.session == "")
      (λ new. h) (λ old. h)

lost : (l : LeaderCandidate) (w : World) → (leader_election sessions l w).1.1 ≡ false
unfolding leader_election campaign acquire_leadership with_holder request_lock
lost l w =
    if_property (λ (r : World × (LeaderCandidate × Bool)). r.1.1 ≡ false) (l.session == "")
      (λ new. refl) (λ old. refl)

abbrev ticks : List Event
ticks = leader_tick ∷ cluster_tick ("web" ∷ []) ∷ job_tick ("web" ∷ []) ∷ leader_tick ∷ []

run_ticks-IsFollowing_example :
    let (w, reply) =
      run_ticks consul sessions [] numbers capacity_api machines jobs_api allocations_api patience
        "replicator/config" "" lookup_api ticks follower new_world in
    IsUnsent w
    × ((r' : Running (Option ℕ)) × (reply ≡ some r')
        × (r'.candidate.leader ≡ false)
        × (r'.registry ≡ one_node)
        × (r'.policies ≡ policies))
unfolding new_leader_candidate
run_ticks-IsFollowing_example =
    run_ticks-IsFollowing consul sessions [] numbers capacity_api machines jobs_api allocations_api
      patience "replicator/config" "" lookup_api IsUnsent elections lost ticks follower new_world
      refl refl

abbrev leading : Running (Option ℕ)
leading = record follower { candidate = record follower.candidate { leader = true } }

led :
    (cluster_round consul sessions [] numbers capacity_api machines jobs_api allocations_api
      patience "replicator/config" "" lookup_api
      ("web" ∷ [])
      leading
      tripped).1
    ≡ some (record leading { registry = refused })
unfolding cluster_round scale_pools node_protection_check string_eq read_state initial_state
    new_scaling_state new_worker_pool lookup
led =
    rw
      (ap (λ (r : World × Option NodeRegistry). r.1)
        (worker_pool_scaling_failsafe consul [] numbers capacity_api machines "replicator/config"
          ("web" ∷ []) "web" stored_pool one_node tripped one_node-lookup refl))
      refl

ran :
    (run_ticks consul sessions [] numbers capacity_api machines jobs_api allocations_api patience
      "replicator/config" "" lookup_api
      (cluster_tick ("web" ∷ []) ∷ [])
      leading
      tripped).1
    ≡ some (record leading { registry = refused })
unfolding run_ticks tick register new_node_registry new_scaling_provider lookup insert string_eq
    new_worker_pool
ran = rw (led, run_ticks, tick) refl

-- ===== src/Server/Follower.antt =====
-- What a copy of the program does that never gets the lock of the leader.
use replicator.Base.{
  String, false, ◌&&◌, Option, some, List, [], ◌∷◌, ◌≡◌, refl, ◌∙◌, if_property, ltb, length, M,
  Result, arith,
}
use replicator.Floats.{Floats}
use replicator.World.{Consul, Notifier}
use replicator.Leader.{Sessions, LeaderCandidate, leader_election}
use replicator.Leader.Laws.{leader_election-leader}
use replicator.Capacity.{NomadCapacity}
use replicator.Scaling.{Machines}
use replicator.JobScaling.{NomadJobs, Patience}
use replicator.JobScaling.Evaluate.{NomadAllocations}
use replicator.Server.{Running, Event, leader_tick, job_tick, cluster_tick, tick, run_ticks}

module _ {W B F A : Type 0} (c : Consul W B) (sessions : Sessions W) (notifiers : List (Notifier W))
    (fl : Floats F) (n : NomadCapacity W) (m : Machines W) (nj : NomadJobs W)
    (na : NomadAllocations W A) (patience : Patience) (key_root : String) (allocation : String)
    (reverse_lookup : String → M W (Result String)) (P : W → Type 0)
    (elections : (l : LeaderCandidate) (w : W) → P w → P (leader_election sessions l w).0)
    (lost : (l : LeaderCandidate) (w : W) → (leader_election sessions l w).1.1 ≡ false) where
  -- A follower, with the registry and the policies of another state of the server.
  abbrev IsFollowing : Running F → W × Option (Running F) → Type 0
  IsFollowing r o =
      P o.0
      × ((r' : Running F) × (o.1 ≡ some r')
          × (r'.candidate.leader ≡ false)
          × (r'.registry ≡ r.registry)
          × (r'.policies ≡ r.policies))

  tick-IsFollowing :
      (e : Event) (r : Running F) (w : W)
      → r.candidate.leader ≡ false
      → P w
      → IsFollowing r
          (tick c sessions notifiers fl n m nj na patience key_root allocation reverse_lookup e r w)
  unfolding tick
  tick-IsFollowing leader_tick r w off h = (
    elections r.candidate w h,
    (
      record r { candidate = (leader_election sessions r.candidate w).1.0 },
      refl,
      ground (arith, leader_election-leader sessions r.candidate w, lost r.candidate w),
      refl,
      refl,
    ),
  )
  tick-IsFollowing (job_tick names) r w off h =
      if_property (IsFollowing r) (r.candidate.leader && ltb 0 (length r.policies.policies))
        (λ on. absurd (ground (arith, off))) (λ idle. (h, (r, refl, off, refl, refl)))
  tick-IsFollowing (cluster_tick names) r w off h =
      if_property (IsFollowing r) (r.candidate.leader && ltb 0 (length r.registry.worker_pools))
        (λ on. absurd (ground (arith, off))) (λ idle. (h, (r, refl, off, refl, refl)))

  -- A copy that never gets the lock does nothing at its ticks but take part in elections, whatever the
  -- ticks and their order: what elections keep of the world is kept, and the registry and the policies
  -- of the jobs stay as they are.
  pub run_ticks-IsFollowing :
      (events : List Event) (r : Running F) (w : W)
      → r.candidate.leader ≡ false
      → P w
      → IsFollowing r (
          run_ticks c sessions notifiers fl n m nj na patience key_root allocation reverse_lookup
            events r w)
  unfolding run_ticks
  run_ticks-IsFollowing [] r w off h = (h, (r, refl, off, refl, refl))
  run_ticks-IsFollowing (e ∷ events) r w off h =
      let (h', (r', reply, off', registry, policies)) = tick-IsFollowing e r w off h in
      let t =
        tick c sessions notifiers fl n m nj na patience key_root allocation reverse_lookup e r w in
      let (h'', (r'', reply', off'', registry', policies')) =
        run_ticks-IsFollowing events r' t.0 off' h' in
      rw (reply, run_ticks) (h'', (r'', reply', off'', registry' ∙ registry, policies' ∙ policies))

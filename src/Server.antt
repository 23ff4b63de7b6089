-- ===== src/Server.antt =====
-- replicator/server.go, `asyncClusterScaling` of replicator/cluster_scaling.go and `asyncJobScaling` of
-- replicator/job_scaling.go: the goroutines of a server and what they do at their ticks. A tick is one
-- step, and the workers of a round take one name after another, in an order that the tick carries.
-- Sockets are a parameter.
pub mod Follower
pub mod Registered
use replicator.Base.{
  ℕ, String, ◌<>◌, Bool, true, false, not, ◌&&◌, ◌||◌, Option, none, some, List, [], ◌∷◌, ◌++◌,
  if◌then◌else◌, ◌==◌, string_eq, Result, ok, err, M, length, ltb,
}
use replicator.Base.Dict.{Dict, keys}
use replicator.Base.Int.{ℤ, pos}
use replicator.Floats.{Floats}
use replicator.Structs.{NodeRegistry}
use replicator.World.{Consul, Notifier}
use replicator.Leader.{
  Sessions, LeaderCandidate, new_leader_candidate, is_leader, leader_election, end_campaign,
  node_protection_check,
}
use replicator.Capacity.{NomadCapacity}
use replicator.Scaling.{Machines, worker_pool_scaling}
use replicator.JobScaling.{NomadJobs, Patience}
use replicator.JobScaling.Evaluate.{NomadAllocations}
use replicator.JobScaling.Rounds.{JobScalingPolicies, jobs_to_scale, job_scaling}
use replicator.Config.{Config, Handles}

abbrev pub leader_lock_timeout : ℤ
leader_lock_timeout = pos 12

-- The goroutines that `NewServer` starts.
pub data Routine : Type 0 where
  leader_ticker job_watcher node_watcher cluster_scaling_ticker job_scaling_ticker rpc_listener :
      Routine

pub record Server (H : Handles) (W : Type 0) : Type 0 where
  pub candidate : LeaderCandidate
  pub config : Config H W
  pub routines : List Routine
  pub listening : Bool
  -- `shutdownChan` is closed.
  pub stopped : Bool

-- The address of a listener: whether it is one of TCP, and whether its IP is unspecified.
pub record ListenAddr : Type 0 where
  pub is_tcp : Bool
  pub is_unspecified : Bool

pub record Sockets (H : Handles) (W : Type 0) : Type 0 where
  pub listen_tcp : Option H.TcpAddr → M W (Result ListenAddr)
  pub close_listener : W → W

-- The goroutines that are started before the RPC layer.
unfoldable pub scaling_routines : Bool → Bool → List Routine
scaling_routines cluster_disable job_disable =
    (if not cluster_disable || not job_disable then job_watcher ∷ [] else [])
    ++ ((if not cluster_disable then node_watcher ∷ cluster_scaling_ticker ∷ [] else [])
        ++ (if not job_disable then job_scaling_ticker ∷ [] else []))

module _ {H : Handles} {W : Type 0} (c : Sessions W) (sockets : Sockets H W) where
  -- `Shutdown`. `none` is the panic of closing the channel twice.
  unfoldable pub shutdown : Server H W → M W (Option (Server H W))
  unfolding end_campaign
  shutdown s w =
      let w1 = end_campaign c s.candidate w in
      let w2 = if s.listening then sockets.close_listener w1 else w1 in
      (w2, if s.stopped then none else some (record s { stopped = true }))

  -- `setupRPC`: whether there is a listener, and whether there was an error.
  unfoldable pub setup_rpc : Config H W → M W (Bool × Bool)
  setup_rpc config w =
      let (w', reply) = sockets.listen_tcp config.rpc_addr w in
      elim reply [
        | err ↦ (w', (false, true))
        | ok addr ↦
            if not addr.is_tcp || addr.is_unspecified
            then (sockets.close_listener w', (true, true))
            else (w', (true, false))
      ]

  -- `NewServer`. After an error of the RPC layer the server is shut down.
  unfoldable pub new_server : Config H W → M W (Result (Server H W))
  unfolding setup_rpc shutdown scaling_routines new_leader_candidate
  new_server config w =
      let (w', (listening, failure)) = setup_rpc config w in
      let s : Server H W = record {
        candidate = new_leader_candidate (config.consul_key_root <> "/leader") leader_lock_timeout;
        config = config;
        routines =
            leader_ticker
            ∷ scaling_routines config.cluster_scaling_disable config.job_scaling_disable;
        listening = listening;
        stopped = false;
      } in
      if failure
      then ((shutdown s w').0, err)
      else (w', ok (record s { routines = s.routines ++ (rpc_listener ∷ []) }))

-- What the goroutines of a server share.
pub record Running (F : Type 0) : Type 0 where
  pub candidate : LeaderCandidate
  pub registry : NodeRegistry
  pub policies : JobScalingPolicies F

-- A tick of one of the three tickers. The names are the order in which `range` meets the pools or the
-- jobs and the workers take them.
pub data Event : Type 0 where
  leader_tick : Event
  job_tick cluster_tick : List String → Event

module _ {W B F A : Type 0} (c : Consul W B) (sessions : Sessions W) (notifiers : List (Notifier W))
    (fl : Floats F) (n : NomadCapacity W) (m : Machines W) (nj : NomadJobs W)
    (na : NomadAllocations W A) (patience : Patience) (key_root : String) (allocation : String)
    (reverse_lookup : String → M W (Result String)) where
  -- The workers of `asyncClusterScaling`. `none` is a panic.
  unfoldable pub scale_pools : List String → List String → NodeRegistry → M W (Option NodeRegistry)
  unfolding worker_pool_scaling
  scale_pools jobs [] r w = (w, some r)
  scale_pools jobs (name ∷ names) r w =
      let (w', reply) = worker_pool_scaling c notifiers fl n m key_root jobs name r w in
      elim reply [ none ↦ (w', none) | some r' ↦ scale_pools jobs names r' w' ]

  -- The workers of `asyncJobScaling`, for the names on the channel.
  unfoldable pub scale_jobs : List String → JobScalingPolicies F → M W (JobScalingPolicies F)
  unfolding job_scaling
  scale_jobs [] s w = (w, s)
  scale_jobs (name ∷ names) s w =
      let (w', s') = job_scaling c notifiers nj patience key_root fl na name s w in
      scale_jobs names s' w'

  -- `nodeProtectionCheck`, whose error is only logged, and `asyncClusterScaling`. `none` is a panic, or
  -- that the workers wait for ever for the lock that the check has left locked.
  unfoldable pub cluster_round : List String → Running F → M W (Option (Running F))
  unfolding scale_pools node_protection_check
  cluster_round names r w =
      let (w1, host) = (if allocation == "" then (w, err) else reverse_lookup allocation w) in
      elim (node_protection_check allocation host r.registry) [
        | none ↦ (w1, none)
        | some p ↦
            if p.locked
            then (w1, none)
            else (let (w2, reply) = scale_pools (keys r.policies.policies) names p.registry w1 in
                (
                  w2,
                  elim reply [
                    | none ↦ none
                    | some registry ↦ some (record r { registry = registry })
                  ],
                ))
      ]

  -- What a ticker does at a tick.
  unfoldable pub tick : Event → Running F → M W (Option (Running F))
  unfolding leader_election cluster_round scale_jobs jobs_to_scale
  tick leader_tick r w =
      let (w', (candidate, _)) = leader_election sessions r.candidate w in
      (w', some (record r { candidate = candidate }))
  tick (job_tick names) r w =
      if is_leader r.candidate && ltb 0 (length r.policies.policies)
      then (let (w1, jobs) = jobs_to_scale nj names w in
          let (w2, policies) = scale_jobs jobs r.policies w1 in
          (w2, some (record r { policies = policies })))
      else (w, some r)
  tick (cluster_tick names) r w =
      if is_leader r.candidate && ltb 0 (length r.registry.worker_pools)
      then cluster_round names r w
      else (w, some r)

  unfoldable pub run_ticks : List Event → Running F → M W (Option (Running F))
  unfolding tick
  run_ticks [] r w = (w, some r)
  run_ticks (e ∷ events) r w =
      let (w', reply) = tick e r w in
      elim reply [ none ↦ (w', none) | some r' ↦ run_ticks events r' w' ]

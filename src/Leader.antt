-- ===== src/Leader.antt =====
-- replicator/leader.go, `AcquireLeadership` of client/consul.go and replicator/node_protection.go:
-- which copy of the program acts, and which node it never removes. Consul's sessions and locks are
-- parameters; logging and metrics are left out.
pub mod Laws
use replicator.Base.{
  String, Bool, true, false, Option, none, some, if◌then◌else◌, ◌==◌, ◌||◌, string_eq, Result, ok,
  err, M,
}
use replicator.Base.Dict.{lookup, insert}
use replicator.Base.Int.{ℤ}
use replicator.Structs.{WorkerPool, NodeRegistry}

pub record Sessions (W : Type 0) : Type 0 where
  -- The session that holds the key; `some ""` is a key that none holds, and `none` no key.
  pub holder : String → M W (Result (Option String))
  -- Whether the session exists.
  pub session_info : String → M W (Result Bool)
  -- Whether the lock was acquired for the session.
  pub acquire : String → String → M W (Result Bool)
  -- `CreateSession`'s request; the renewal of the session runs beside the program.
  pub create_session : ℤ → M W (Result String)
  -- `true` is an error.
  pub release : String → String → W → W
  pub stop_renewal : W → W

-- `LeaderCandidate`; `renewing` says whether `renewChan` has been made.
pub record LeaderCandidate : Type 0 where
  pub leader : Bool
  pub key : String
  pub session : String
  pub ttl : ℤ
  pub renewing : Bool

-- `newLeaderCandidate`
unfoldable pub new_leader_candidate : String → ℤ → LeaderCandidate
new_leader_candidate key ttl = record {
  leader = false;
  key = key;
  session = "";
  ttl = ttl;
  renewing = false;
}

-- `isLeader`
abbrev pub is_leader : LeaderCandidate → Bool
is_leader l = l.leader

module _ {W : Type 0} (c : Sessions W) where
  -- The request for the lock, at the end of `AcquireLeadership`.
  unfoldable pub request_lock : String → String → M W (String × Bool)
  request_lock key session w =
      let (w', reply) = c.acquire key session w in
      (w', elim reply [ err ↦ (session, false) | ok acquired ↦ (session, acquired) ])

  unfoldable pub with_holder : String → String → Option String → M W (String × Bool)
  unfolding request_lock
  with_holder key session none w = request_lock key session w
  with_holder key session (some holder) w =
      if holder == session then (w, (session, true)) else request_lock key session w

  -- `AcquireLeadership`: the session, which is cleared when it has expired, and whether the lock is
  -- held.
  unfoldable pub acquire_leadership : String → String → M W (String × Bool)
  unfolding with_holder
  acquire_leadership key session w =
      let (w1, held) = c.holder key w in
      elim held [
        | err ↦ (w1, (session, false))
        | ok holder ↦
            let (w2, known) = c.session_info session w1 in
            elim known [
              | err ↦ (w2, (session, false))
              | ok exists ↦ if exists then with_holder key session holder w2 else (w2, ("", false))
            ]
      ]

  unfoldable pub campaign : LeaderCandidate → M W (LeaderCandidate × Bool)
  unfolding acquire_leadership
  campaign l w =
      let (w', (session, acquired)) = acquire_leadership l.key l.session w in
      (
        w',
        if acquired
            then (record l { session = session; leader = true }, true)
            else (record l { session = session }, false),
      )

  -- `leaderElection`: the candidate, and whether it holds the lock.
  unfoldable pub leader_election : LeaderCandidate → M W (LeaderCandidate × Bool)
  unfolding campaign
  leader_election l w =
      if l.session == ""
      then (let (w', reply) = c.create_session l.ttl w in
          elim reply [
            | err ↦ (w', (record l { renewing = true }, false))
            | ok id ↦ campaign (record l { session = id; renewing = true }) w'
          ])
      else campaign l w

  -- `endCampaign`, with `releaseSession`.
  unfoldable pub end_campaign : LeaderCandidate → W → W
  end_campaign l w =
      let w' = if l.renewing then c.stop_renewal w else w in
      if l.leader then c.release l.key l.session w' else w'

-- How `nodeProtectionCheck` ends: the registry, whether it is still locked, and whether there was an
-- error.
pub record Protection : Type 0 where
  pub registry : NodeRegistry
  pub locked : Bool
  pub failed : Bool

-- `nodeProtectionCheck`, from what `NodeReverseLookup` answers for the allocation. `none` is a panic.
unfoldable pub node_protection_check : String → Result String → NodeRegistry → Option Protection
node_protection_check allocation reply r =
    if allocation == ""
    then some (record { registry = r; locked = false; failed = false })
    else elim reply [
      | err ↦ some (record { registry = r; locked = false; failed = true })
      | ok host ↦
          if host == ""
          then some (record { registry = r; locked = false; failed = true })
          else elim (lookup host r.registered_nodes) [
            | none ↦ some (record { registry = r; locked = true; failed = true })
            | some name ↦ elim (lookup name r.worker_pools) [
              | none ↦ none
              | some pool ↦ some (record {
                registry = record r {
                  worker_pools = insert name (record pool { protected_node = host }) r.worker_pools;
                };
                locked = false;
                failed = false;
              })
            ]
          ]
    ]

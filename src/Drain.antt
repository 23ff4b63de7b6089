-- ===== src/Drain.antt =====
-- `DrainNode` of client/nomad.go: a node is told to drain and its allocations are awaited. Nomad's API
-- is a parameter; logging is left out.
pub mod Laws
use replicator.Base.{
  ℕ, String, Bool, true, false, not, ◌||◌, List, [], ◌∷◌, if◌then◌else◌, ◌==◌, string_eq, Result,
  ok, err, M,
}
use replicator.Polling.{Tick, again, finished, poll_again}

pub record NomadDrain (W : Type 0) : Type 0 where
  -- `Nodes().UpdateDrain`; `true` is an error.
  pub update_drain : String → M W Bool
  -- `Nodes().Info`: whether the node drains.
  pub drain_of : String → M W (Result Bool)
  -- `Nodes().Allocations`: the client status of each allocation.
  pub statuses_of : String → M W (Result (List String))
  pub tick : W → W

-- Whether an allocation is running or pending.
unfoldable pub has_active : List String → Bool
has_active [] = false
has_active (status ∷ statuses) = status == "running" || status == "pending" || has_active statuses

module _ {W : Type 0} (n : NomadDrain W) (ticks : ℕ) where
  drain_attempt : String → W → W × Tick Bool
  unfolding has_active
  drain_attempt node w =
      let (w', reply) = n.statuses_of node (n.tick w) in
      (
        w',
        elim reply [
          | err ↦ finished true
          | ok statuses ↦ if has_active statuses then again else finished false
        ],
      )

  -- `DrainNode`; `true` is an error, and a timeout is none.
  unfoldable pub drain_node : String → M W Bool
  unfolding drain_attempt
  drain_node node w =
      let (w1, refused) = n.update_drain node w in
      if refused
      then (w1, true)
      else let (w2, reply) = n.drain_of node w1 in
        elim reply [
          | err ↦ (w2, true)
          | ok draining ↦
              if draining then poll_again false (drain_attempt node) ticks w2 else (w2, false)
        ]

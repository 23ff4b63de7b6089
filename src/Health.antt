-- ===== src/Health.antt =====
-- `VerifyNodeHealth` of client/nomad.go: a worker node is awaited in Nomad's list of nodes. Nomad's API is
-- a parameter; logging is left out.
use replicator.Base.{
  ℕ, String, Bool, true, false, Option, none, some, List, [], ◌∷◌, if◌then◌else◌, ◌==◌, string_eq,
  Result, ok, err, M,
}
use replicator.Polling.{Tick, again, finished, poll_again}

-- An entry of the list of nodes.
pub record ListedNode : Type 0 where
  pub id : String
  pub status : String

pub record NomadHealth (W : Type 0) : Type 0 where
  -- `Nodes().List`
  pub nodes : M W (Result (List ListedNode))
  -- `Nodes().Info`: the attribute `unique.network.ip-address`, which is empty where it is absent.
  pub address_of : String → M W (Result String)
  pub tick : W → W

module _ {W : Type 0} (n : NomadHealth W) (ticks : ℕ) where
  -- The loop over the nodes: whether a ready one has the address. `none` is the panic of reading a node
  -- whose request has failed, since that error is only logged.
  unfoldable pub has_ready_node : String → List ListedNode → M W (Option Bool)
  has_ready_node address [] w = (w, some false)
  has_ready_node address (node ∷ nodes) w =
      let (w', reply) = n.address_of node.id w in
      let later = has_ready_node address nodes w' in
      let skipped = has_ready_node address nodes w in
      if node.status == "ready"
      then elim reply [
        | err ↦ (w', none)
        | ok ip ↦ if ip == address then (w', some true) else later
      ]
      else skipped

  health_attempt : String → W → W × Tick (Option Bool)
  unfolding has_ready_node
  health_attempt address w =
      let (w1, reply) = n.nodes (n.tick w) in
      elim reply [
        | err ↦ (w1, finished (some false))
        | ok nodes ↦
            let (w2, found) = has_ready_node address nodes w1 in
            (
              w2,
              elim found [
                | none ↦ finished none
                | some true ↦ finished (some true)
                | some false ↦ again
              ],
            )
      ]

  -- `VerifyNodeHealth`. `none` is a panic.
  unfoldable pub verify_node_health : String → M W (Option Bool)
  unfolding health_attempt
  verify_node_health address = poll_again (some false) (health_attempt address) ticks

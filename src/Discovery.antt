-- ===== src/Discovery.antt =====
-- client/node_discovery.go: the configuration of a node and the watcher that keeps the registry, and
-- `LoadPoolConfig` of client/consul.go. Nomad's API, `mapstructure` and hashing are parameters.
pub mod Watch
use replicator.Base.{
  ℕ, zero, suc, String, ◌<>◌, Bool, true, false, Option, none, some, List, [], ◌∷◌, if◌then◌else◌,
  ◌==◌, ◌&&◌, not, string_eq, nat_eq, ltb, leb, length, Result, ok, err, M, pure, ◌>>=◌, ◌>>◌,
}
use replicator.Base.Dict.{Dict, lookup}
use replicator.Helper.{parse_meta_config, string_in_slice}
use replicator.Structs.{Node, NodeRegistry, WorkerPool, new_worker_pool, Time}
use replicator.World.{Consul, KvReply, failed, absent, present}
use replicator.Registry.{
  node_status_ready, node_status_down, register, deregister, node_registry_updated,
}

-- An entry of Nomad's list of nodes.
pub record NodeStub : Type 0 where
  pub id : String
  pub status : String
  pub drain : Bool
  pub modify_index : ℕ

pub record NomadNodes (W : Type 0) : Type 0 where
  -- `Nodes().List` at a wait index: the nodes and the last index.
  pub list : ℕ → M W (Result (List NodeStub × ℕ))
  -- `Nodes().Info`
  pub info : String → M W (Result Node)
  pub sleep : W → W

abbrev pub pool_name_key : String
pool_name_key = "replicator_worker_pool"

abbrev pub required_keys : List String
required_keys =
    "replicator_enabled" ∷ "replicator_notification_uid" ∷ "replicator_provider"
    ∷ "replicator_region" ∷ "replicator_worker_pool" ∷ []

-- Functions of third-party packages: JSON and `mapstructure` decoding, and the hashes.
pub record Decoders (B : Type 0) : Type 0 where
  pub unmarshal_map : B → Result (Dict String String)
  pub decode_pool : Dict String String → WorkerPool → Result WorkerPool
  pub hash_pool : WorkerPool → Result ℕ
  pub hash_nodes : Dict String String → Result ℕ

module _ {W B : Type 0} (c : Consul W B) (d : Decoders B) where
  -- `LoadPoolConfig`
  unfoldable pub load_pool_config : String → M W (Result (Dict String String))
  load_pool_config key w =
      let (w', reply) = c.kv_get key w in
      elim reply [
        | failed ↦ (w', err)
        | absent ↦ (w', err)
        | present bytes ↦ (w', d.unmarshal_map bytes)
      ]

  decode_complete : Dict String String → Result WorkerPool
  decode_complete params =
      if leb 1 (length (parse_meta_config params required_keys))
      then err
      else d.decode_pool params new_worker_pool

  fallback_config : String → String → M W (Result WorkerPool)
  unfolding load_pool_config decode_complete
  fallback_config key_root pool = do
    loaded ← load_pool_config (key_root <> "/nodes/" <> pool)
    pure (elim loaded [ err ↦ err | ok params ↦ decode_complete params ])

  -- `ProcessNodeConfig`, with the Consul key root of the configuration.
  unfoldable pub process_node_config : String → Node → M W (Result WorkerPool)
  unfolding fallback_config
  process_node_config key_root node =
      let missing = parse_meta_config node.meta required_keys in
      if length missing == length required_keys
      then pure err
      else if leb 1 (length missing) && not (string_in_slice pool_name_key missing)
      then fallback_config key_root
          (elim (lookup pool_name_key node.meta) [ none ↦ "" | some pool ↦ pool ])
      else if leb 1 (length missing)
      then pure err
      else pure (d.decode_pool node.meta new_worker_pool)

-- `Deregister` where its error is dropped.
deregister_quietly : String → NodeRegistry → Option NodeRegistry
deregister_quietly node r = elim (deregister node r) [ none ↦ none | some (r', e) ↦ some r' ]

module _ {W B : Type 0} (c : Consul W B) (n : NomadNodes W) (d : Decoders B)
    (key_root : String) where
  deregister_known : String → NodeRegistry → Option NodeRegistry
  unfolding deregister_quietly
  deregister_known node r = elim (lookup node r.registered_nodes) [
    | none ↦ some r
    | some pool ↦ deregister_quietly node r
  ]

  register_configured : String → Node → WorkerPool → Time → NodeRegistry → Option NodeRegistry
  unfolding deregister_quietly
  register_configured id node pool now r =
      let r' = (register d.hash_pool node pool now r).0 in
      if pool.scaling_enabled then some r' else deregister_quietly id r'

  -- The case of a ready node.
  handle_ready : String → NodeRegistry → M W (Option NodeRegistry)
  unfolding deregister_known register_configured
  handle_ready id r w =
      let (w1, reply) = n.info id w in
      elim reply [
        | err ↦ (w1, some r)
        | ok node ↦
            let (w2, config) = process_node_config c d key_root node w1 in
            elim config [
              | err ↦ (w2, deregister_known id r)
              | ok pool ↦ let (w3, now) = c.now w2 in (w3, register_configured id node pool now r)
            ]
      ]

  -- The body of the loop over the nodes in `NodeWatcher`; `none` is a panic.
  handle_node : NodeStub → NodeRegistry → M W (Option NodeRegistry)
  unfolding deregister_quietly handle_ready
  handle_node node r =
      if leb node.modify_index r.last_change_index
      then pure (some r)
      else if node.drain && node.status == node_status_ready
      then pure (deregister_quietly node.id r)
      else if node.status == node_status_ready
      then handle_ready node.id r
      else if node.status == node_status_down
      then pure (deregister_quietly node.id r)
      else pure (some r)

  unfoldable pub handle_nodes : List NodeStub → NodeRegistry → M W (Option NodeRegistry)
  unfolding handle_node
  handle_nodes [] r w = (w, some r)
  handle_nodes (node ∷ nodes) r w =
      let (w', reply) = handle_node node r w in
      elim reply [ none ↦ (w', none) | some r' ↦ handle_nodes nodes r' w' ]

  -- What follows the loop over the nodes: the new hash and the new index.
  settle : ℕ → NodeRegistry → NodeRegistry
  settle index r = record ((node_registry_updated d.hash_nodes r).0) { last_change_index = index }

  handle_reply : ℕ → List NodeStub → ℕ → NodeRegistry → M W (Option (NodeRegistry × ℕ))
  unfolding handle_nodes settle
  handle_reply wait nodes index r w =
      if leb index r.last_change_index
      then (w, some (r, wait))
      else let (w', reply) = handle_nodes nodes r w in
        (w', elim reply [ none ↦ none | some r' ↦ some (settle index r', index) ])

  -- One round of `NodeWatcher` with the wait index of its query.
  watch_round : ℕ → NodeRegistry → M W (Option (NodeRegistry × ℕ))
  unfolding handle_reply
  watch_round wait r w =
      let (w', reply) = n.list wait w in
      elim reply [
        | err ↦ (n.sleep w', some (r, wait))
        | ok (nodes, index) ↦ handle_reply wait nodes index r w'
      ]

  -- `NodeWatcher`, for as many rounds as the process lives.
  unfoldable pub node_watcher : ℕ → ℕ → NodeRegistry → M W (Option (NodeRegistry × ℕ))
  unfolding watch_round
  node_watcher zero wait r w = (w, some (r, wait))
  node_watcher (suc rounds) wait r w =
      let (w', reply) = watch_round wait r w in
      elim reply [ none ↦ (w', none) | some (r', wait') ↦ node_watcher rounds wait' r' w' ]

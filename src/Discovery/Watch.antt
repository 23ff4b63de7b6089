-- ===== src/Discovery/Watch.antt =====
-- The watcher keeps the registry valid and never panics.
use replicator.Base.{
  ℕ, zero, suc, String, ◌≡◌, refl, sym, ◌∙◌, Option, none, some, List, [], ◌∷◌, arith, inl, inr,
  string_eq, leb, Option-cases, Bool-cases, if_property, Result-cases,
}
use replicator.Base.Dict.{lookup, lookup-nil}
use mathlib.Core.Option.{none-ne-some}
use replicator.Structs.{Node, NodeRegistry, WorkerPool, Time, new_node_registry}
use replicator.World.{Consul}
use replicator.Registry.{node_registry_updated}
use replicator.Registry.Invariant.{IsValid, register-IsValid}
use replicator.Registry.Removal.{deregister-IsValid}
use replicator.Discovery.{
  NodeStub, NomadNodes, Decoders, process_node_config, deregister_quietly, deregister_known,
  register_configured, handle_ready, handle_node, handle_nodes, settle, handle_reply, watch_round,
  node_watcher,
}

pub new_node_registry-IsValid : IsValid new_node_registry
unfolding new_node_registry
new_node_registry-IsValid = record {
  named = λ name pool h. absurd (none-ne-some _ (sym (lookup-nil name) ∙ h));
  populated = λ name pool h. absurd (none-ne-some _ (sym (lookup-nil name) ∙ h));
  member = λ node name h. absurd (none-ne-some _ (sym (lookup-nil node) ∙ h));
}

-- No panic, and a valid registry.
abbrev pub Succeeds : Option NodeRegistry → Type 0
Succeeds none = ⊥
Succeeds (some r) = IsValid r

deregister_quietly-Succeeds :
    (node : String) (r : NodeRegistry) → IsValid r → Succeeds (deregister_quietly node r)
unfolding deregister_quietly
deregister_quietly-Succeeds node r v =
    let (r', failed, e, v', _, _, _, _, _) = deregister-IsValid node r v in
    rw (e, deregister_quietly) v'

module _ {W B : Type 0} (c : Consul W B) (n : NomadNodes W) (d : Decoders B)
    (key_root : String) where
  deregister_known-Succeeds :
      (node : String) (r : NodeRegistry)
      → IsValid r
      → Succeeds (deregister_known c n d key_root node r)
  unfolding deregister_known
  deregister_known-Succeeds node r v = elim (Option-cases (lookup node r.registered_nodes)) [
    | inl e ↦ rw (e, deregister_known) v
    | inr (pool, e) ↦ rw (e, deregister_known) (deregister_quietly-Succeeds node r v)
  ]

  register_configured-Succeeds :
      (id : String) (node : Node) (pool : WorkerPool) (now : Time) (r : NodeRegistry)
      → IsValid r
      → Succeeds (register_configured c n d key_root id node pool now r)
  unfolding register_configured
  register_configured-Succeeds id node pool now r v =
      let v' = register-IsValid d.hash_pool node pool now r v in
      if_property Succeeds pool.scaling_enabled (λ _. v') (λ _. deregister_quietly-Succeeds id _ v')

  handle_ready-Succeeds :
      (id : String) (r : NodeRegistry) (w : W)
      → IsValid r
      → Succeeds (handle_ready c n d key_root id r w).1
  unfolding handle_ready
  handle_ready-Succeeds id r w v = elim (Result-cases (n.info id w).1) [
    | inl e ↦ rw (e, handle_ready) v
    | inr (node, e) ↦
        let w1 = (n.info id w).0 in
        elim (Result-cases (process_node_config c d key_root node w1).1) [
          | inl e' ↦ rw (e, e', handle_ready) (deregister_known-Succeeds id r v)
          | inr (pool, e') ↦
              rw (e, e', handle_ready) (register_configured-Succeeds id node pool _ r v)
        ]
  ]

  handle_node-Succeeds :
      (node : NodeStub) (r : NodeRegistry) (w : W)
      → IsValid r
      → Succeeds (handle_node c n d key_root node r w).1
  unfolding handle_node
  handle_node-Succeeds node r w v =
      ground (arith, deregister_quietly-Succeeds node.id r v, handle_ready-Succeeds node.id r w v)

  handle_nodes-Succeeds :
      (nodes : List NodeStub) (r : NodeRegistry) (w : W)
      → IsValid r
      → Succeeds (handle_nodes c n d key_root nodes r w).1
  unfolding handle_nodes
  handle_nodes-Succeeds [] r w v = v
  handle_nodes-Succeeds (node ∷ nodes) r w v =
      go (handle_node c n d key_root node r w).1 (handle_node-Succeeds node r w v)
        (λ r'. handle_nodes-Succeeds nodes r' (handle_node c n d key_root node r w).0) refl
    where
      go :
          (reply : Option NodeRegistry)
          → Succeeds reply
          → ((r' : NodeRegistry)
              → IsValid r'
              → Succeeds
                  (handle_nodes c n d key_root nodes r' (handle_node c n d key_root node r w).0).1)
          → (handle_node c n d key_root node r w).1 ≡ reply
          → Succeeds (handle_nodes c n d key_root (node ∷ nodes) r w).1
      go none s rest e = absurd s
      go (some r') s rest e = rw (e, handle_nodes) (rest r' s)

  settle_keeps :
      (index : ℕ) (r : NodeRegistry)
      → ((settle c n d key_root index r).worker_pools ≡ r.worker_pools)
        × ((settle c n d key_root index r).registered_nodes ≡ r.registered_nodes)
  unfolding settle node_registry_updated
  settle_keeps index r = ground arith

  settle-IsValid :
      (index : ℕ) (r : NodeRegistry) → IsValid r → IsValid (settle c n d key_root index r)
  settle-IsValid index r v =
      let (pools, nodes) = settle_keeps index r in
      record {
        named = rw pools v.named;
        populated = rw pools v.populated;
        member = rw (pools, nodes) v.member;
      }

  -- No panic, and a valid registry with the next wait index.
  abbrev Watches : Option (NodeRegistry × ℕ) → Type 0
  Watches none = ⊥
  Watches (some (r, wait)) = IsValid r

  handle_reply-Watches :
      (wait index : ℕ) (nodes : List NodeStub) (r : NodeRegistry) (w : W)
      → IsValid r
      → Watches (handle_reply c n d key_root wait nodes index r w).1
  unfolding handle_reply
  handle_reply-Watches wait index nodes r w v = elim (Bool-cases (leb index r.last_change_index)) [
    | inl old ↦ rw old v
    | inr new ↦
        rw new (go (handle_nodes c n d key_root nodes r w).1 (handle_nodes-Succeeds nodes r w v))
  ]
    where
      go :
          (reply : Option NodeRegistry)
          → Succeeds reply
          → Watches
              (elim reply [ none ↦ none | some r' ↦ some (settle c n d key_root index r', index) ])
      go none s = s
      go (some r') s = settle-IsValid index r' s

  watch_round-Watches :
      (wait : ℕ) (r : NodeRegistry) (w : W)
      → IsValid r
      → Watches (watch_round c n d key_root wait r w).1
  unfolding watch_round
  watch_round-Watches wait r w v = elim (Result-cases (n.list wait w).1) [
    | inl e ↦ rw (e, watch_round) v
    | inr ((nodes, index), e) ↦
        rw (e, watch_round) (handle_reply-Watches wait index nodes r (n.list wait w).0 v)
  ]

  node_watcher-Watches :
      (rounds wait : ℕ) (r : NodeRegistry) (w : W)
      → IsValid r
      → Watches (node_watcher c n d key_root rounds wait r w).1
  unfolding node_watcher
  node_watcher-Watches zero wait r w v = v
  node_watcher-Watches (suc rounds) wait r w v =
      go (watch_round c n d key_root wait r w).1 (watch_round-Watches wait r w v)
        (λ r' wait'. node_watcher-Watches rounds wait' r' (watch_round c n d key_root wait r w).0)
        refl
    where
      go :
          (reply : Option (NodeRegistry × ℕ))
          → Watches reply
          → ((r' : NodeRegistry) (wait' : ℕ)
              → IsValid r'
              → Watches
                  (node_watcher c n d key_root rounds wait' r'
                    (watch_round c n d key_root wait r w).0).1)
          → (watch_round c n d key_root wait r w).1 ≡ reply
          → Watches (node_watcher c n d key_root (suc rounds) wait r w).1
      go none s rest e = absurd s
      go (some (r', wait')) s rest e = rw (e, node_watcher) (rest r' wait' s)

  -- Started on a new registry, the watcher never panics, and after any number of rounds, whatever
  -- Nomad and Consul answer, the registry is valid: each pool stands under its own name and has a
  -- node, and each registered node is among the nodes of its pool.
  pub node_watcher-IsValid :
      (rounds wait : ℕ) (w : W)
      → (r : NodeRegistry) × (wait' : ℕ) × ((node_watcher c n d key_root rounds wait
            new_node_registry w).1
          ≡ some (r, wait'))
        × IsValid r
  node_watcher-IsValid rounds wait w =
      go (node_watcher c n d key_root rounds wait new_node_registry w).1
        (node_watcher-Watches rounds wait new_node_registry w new_node_registry-IsValid)
    where
      go :
          (reply : Option (NodeRegistry × ℕ))
          → Watches reply
          → (r : NodeRegistry) × (wait' : ℕ) × (reply ≡ some (r, wait')) × IsValid r
      go none s = absurd s
      go (some (r, wait')) s = (r, wait', refl, s)

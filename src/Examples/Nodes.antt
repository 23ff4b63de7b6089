-- ===== src/Examples/Nodes.antt =====
-- The registry at concrete inputs.
use replicator.Base.{
  ℕ, String, Bool, true, false, not, ◌≡◌, ◌≢◌, none, some, if◌then◌else◌, ◌==◌, string_eq, Result,
  ok, refl,
}
use replicator.Base.Dict.{lookup, insert}
use replicator.Structs.{NodeRegistry, new_node_registry, WorkerPool, new_worker_pool}
use replicator.Registry.{register, deregister, new_scaling_provider}
use replicator.Registry.Invariant.{is_some, holds, IsValid, register-IsValid}
use replicator.Registry.Removal.{deregister-IsValid}
use replicator.Registry.Stale.{holds-register, register_stale}
use replicator.Discovery.{node_watcher}
use replicator.Discovery.Watch.{node_watcher-IsValid, new_node_registry-IsValid}
use replicator.Examples.Concrete.{new_world, consul, decoders, node_of, nodes_api, pool_named}

abbrev hash : WorkerPool → Result ℕ
hash pool = ok 1

abbrev one_node : NodeRegistry
one_node = (register hash (node_of "n1") (pool_named "web") 5 new_node_registry).0

one_node-IsValid : IsValid one_node
one_node-IsValid =
    register-IsValid hash (node_of "n1") (pool_named "web") 5 new_node_registry
      new_node_registry-IsValid

register-IsValid_example : IsValid (register hash (node_of "n2") (pool_named "web") 6 one_node).0
register-IsValid_example =
    register-IsValid hash (node_of "n2") (pool_named "web") 6 one_node one_node-IsValid

deregister-IsValid_example :
    (r' : NodeRegistry) × (failed : Bool) × (deregister "n1" one_node ≡ some (r', failed))
    × IsValid r'
    × (failed ≡ not (is_some (lookup "n1" one_node.registered_nodes)))
    × ((n : String)
        → lookup n r'.registered_nodes
          ≡ (if n == "n1" then none else lookup n one_node.registered_nodes))
    × ((k : String) → lookup "n1" one_node.registered_nodes ≡ some k → holds r' k "n1" ≡ false)
    × ((n k : String)
        → (n ≡ "n1" → lookup "n1" one_node.registered_nodes ≢ some k)
        → holds r' k n ≡ holds one_node k n)
    × (failed ≡ true → r' ≡ one_node)
deregister-IsValid_example = deregister-IsValid "n1" one_node one_node-IsValid

node_watcher-IsValid_example :
    (r : NodeRegistry) × (wait' : ℕ) × ((node_watcher consul nodes_api decoders "replicator/config"
        3 1 new_node_registry new_world).1
      ≡ some (r, wait'))
    × IsValid r
node_watcher-IsValid_example =
    node_watcher-IsValid consul nodes_api decoders "replicator/config" 3 1 new_world

web-ne-db : ◌≢◌ {A = String} "web" "db"
web-ne-db = λ e. cc

holds-register_example :
    let r' = (register hash (node_of "n2") (pool_named "db") 6 one_node).0 in
    (◌≡◌ {A = Bool} true true
      → (register hash (node_of "n2") (pool_named "db") 6 one_node).1 ≡ false
      → holds r' "db" "n2" ≡ true)
    × ((k n : String) → k ≢ "db" → holds r' k n ≡ holds one_node k n)
holds-register_example = holds-register hash (node_of "n2") (pool_named "db") 6 one_node

register_stale_example :
    let r' = (register hash (node_of "n1") (pool_named "db") 6 one_node).0 in
    (holds r' "web" "n1" ≡ true)
    × (holds r' "db" "n1" ≡ true)
    × (r'' : NodeRegistry) × (deregister "n1" r' ≡ some (r'', false))
    × (lookup "n1" r''.registered_nodes ≡ none)
    × (holds r'' "web" "n1" ≡ true)
unfolding register new_node_registry new_scaling_provider lookup insert string_eq new_worker_pool
register_stale_example =
    register_stale hash (node_of "n1") (pool_named "db") 6 one_node "web" one_node-IsValid refl
      web-ne-db refl refl refl

-- ===== src/Examples/Leading.antt =====
-- Leadership and node protection at concrete inputs.
use replicator.Base.{
  Result, ℕ, String, true, false, ◌≡◌, ◌≢◌, refl, Option, none, some, [], ◌∷◌, ok, string_eq,
}
use replicator.Base.Dict.{lookup, insert}
use replicator.Base.Int.{pos}
use replicator.Structs.{
  NodeRegistry, new_node_registry, WorkerPool, ClusterCapacity, new_worker_pool,
}
use replicator.Capacity.Limits.{least_allocated_node}
use replicator.Leader.{
  Sessions, LeaderCandidate, new_leader_candidate, Protection, acquire_leadership,
  node_protection_check, with_holder, request_lock,
}
use replicator.Leader.Laws.{
  IsGranted, acquire_leadership-IsGranted, node_protection_check-least_allocated_node,
  node_protection_check_locked_iff,
}
use replicator.Examples.Concrete.{World, new_world, numbers, capacity_api, node_of, pool_named}

abbrev sessions : Sessions World
sessions = record {
  holder = λ key w. (w, ok none);
  session_info = λ session w. (w, ok true);
  acquire = λ key session w. (w, ok true);
  create_session = λ ttl w. (w, ok "session");
  release = λ key session w. w;
  stop_renewal = λ w. w;
}

abbrev candidate : LeaderCandidate
candidate = new_leader_candidate "replicator/leader" (pos 12)

acquire_leadership-IsGranted_example :
    IsGranted sessions "replicator/leader" "session" new_world new_world new_world
unfolding acquire_leadership with_holder request_lock
acquire_leadership-IsGranted_example =
    acquire_leadership-IsGranted sessions "replicator/leader" "session" new_world refl

abbrev registry : NodeRegistry
registry = record {
  last_change_index = 0;
  registered_nodes = ("n1", "web") ∷ [];
  registered_nodes_hash = 0;
  worker_pools = ("web", record (pool_named "web") { nodes = ("n1", node_of "n1") ∷ [] }) ∷ [];
}

abbrev protected : Protection
protected = record {
  registry = record registry {
    worker_pools =
        (
          "web",
          record (pool_named "web") { nodes = ("n1", node_of "n1") ∷ []; protected_node = "n1" },
        )
        ∷ [];
  };
  locked = false;
  failed = false;
}

allocation-ne-empty : ◌≢◌ {A = String} "allocation" ""
allocation-ne-empty = λ e. cc

node_protection_check-least_allocated_node_example :
    (name : String) × (pool : WorkerPool) × (lookup "n1" registry.registered_nodes ≡ some name)
    × (lookup name protected.registry.worker_pools ≡ some pool)
    × (pool.protected_node ≡ "n1")
    × ((c : ClusterCapacity (Option ℕ)) (w : World)
        → (least_allocated_node numbers capacity_api c pool.protected_node w).1.0 ≢ "n1")
unfolding node_protection_check lookup insert string_eq new_worker_pool
node_protection_check-least_allocated_node_example =
    node_protection_check-least_allocated_node numbers capacity_api "allocation" "n1" registry
      protected allocation-ne-empty refl refl

abbrev unprotected : Protection
unprotected = record { registry = new_node_registry; locked = true; failed = true }

node_protection_check_locked_iff_example :
    (unprotected.locked ≡ true
      → (◌≢◌ {A = String} "allocation" "")
        × (host : String) × (◌≡◌ {A = Result String} (ok "n1") (ok host))
        × (host ≢ "")
        × (lookup host new_node_registry.registered_nodes ≡ none)
        × (unprotected.failed ≡ true))
    × ((host : String)
        → ◌≢◌ {A = String} "allocation" ""
        → ◌≡◌ {A = Result String} (ok "n1") (ok host)
        → host ≢ ""
        → lookup host new_node_registry.registered_nodes ≡ none
        → unprotected.locked ≡ true)
unfolding node_protection_check new_node_registry lookup string_eq
node_protection_check_locked_iff_example =
    node_protection_check_locked_iff "allocation" (ok "n1") new_node_registry unprotected refl

-- ===== src/Examples/Waiting.antt =====
-- The waiting for nodes at concrete inputs.
use replicator.Base.{
  ℕ, suc, string_eq, true, false, none, some, [], ◌∷◌, ◌≡◌, refl, ok, err, if◌then◌else◌, leb,
}
use replicator.Base.Dict.{lookup}
use replicator.Base.Int.{◌-ℤ◌}
use replicator.Structs.{NodeRegistry, new_node_registry, new_worker_pool}
use replicator.Polling.{poll, poll_again}
use replicator.Health.{NomadHealth, verify_node_health, has_ready_node}
use replicator.Helper.Recent.{find_node_by_registration_time, latest}
use replicator.Examples.Concrete.{pool_named}

-- The second node is ready from the third tick on.
abbrev two_nodes : NomadHealth ℕ
two_nodes = record {
  nodes = λ w. (
    w,
    ok (
        record { id = "n1"; status = "ready" }
        ∷ record { id = "n2"; status = if leb 3 w then "ready" else "initializing" }
        ∷ []),
  );
  address_of = λ id w. (w, ok (if leb 3 w then "10.0.0.2" else "10.0.0.1"));
  tick = λ w. suc w;
}

healthy : verify_node_health two_nodes 30 "10.0.0.2" 0 ≡ (3, some true)
unfolding verify_node_health poll_again poll has_ready_node string_eq
healthy = refl

too_late : verify_node_health two_nodes 2 "10.0.0.2" 0 ≡ (2, some false)
unfolding verify_node_health poll_again poll has_ready_node string_eq
too_late = refl

failed_request :
    verify_node_health (record two_nodes { address_of = λ id w. (w, err) }) 30 "10.0.0.2" 0
    ≡ (1, none)
unfolding verify_node_health poll_again poll has_ready_node string_eq
failed_request = refl

abbrev registered : NodeRegistry
registered = record new_node_registry {
  worker_pools =
      (
        "web",
        record (pool_named "web") {
          node_registrations =
              ("n1", 100000000000) ∷ ("n2", 160000000000) ∷ ("n3", 130000000000) ∷ [];
        },
      )
      ∷ [];
}

recent :
    find_node_by_registration_time
      (λ (w : ℕ). (w, 200000000000))
      (λ w. suc w)
      (λ w. (w, registered))
      30
      "web"
      0
    ≡ (1, some (ok "n2"))
unfolding find_node_by_registration_time poll latest new_worker_pool new_node_registry lookup
    string_eq ◌-ℤ◌
recent = refl

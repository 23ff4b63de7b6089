-- ===== src/Registry.antt =====
-- client/node_discovery.go: the registry of worker pools and nodes. Each operation holds the lock of
-- the registry throughout, so it is one step. `none` is a panic of the goroutine.
pub mod Invariant
pub mod Removal
pub mod Stale
use replicator.Base.{
  ℕ, String, Bool, true, false, Option, none, some, [], if◌then◌else◌, ◌==◌, ◌||◌, ◌&&◌, not,
  string_eq, nat_eq, leb, length, Result, ok, err,
}
use replicator.Base.Dict.{Dict, lookup, insert, erase}
use replicator.Helper.{has_object_changed}
use replicator.Structs.{Node, NodeRegistry, WorkerPool, ScalingProvider, aws, Time}

abbrev pub node_status_ready : String
node_status_ready = "ready"

abbrev pub node_status_down : String
node_status_down = "down"

-- `NewAwsScalingProvider` of cloud/aws/aws_cloud_provider.go.
unfoldable pub new_aws_scaling_provider : WorkerPool → Result ScalingProvider
new_aws_scaling_provider pool = if pool.region == "" then err else ok (aws pool.region)

-- `NewScalingProvider` of cloud/cloud_provider.go.
unfoldable pub new_scaling_provider : WorkerPool → Result ScalingProvider
unfolding new_aws_scaling_provider
new_scaling_provider pool =
    if pool.provider_name == ""
    then err
    else if pool.provider_name == "aws"
    then new_aws_scaling_provider pool
    else err

-- The fields that `Register` copies onto a pool whose configuration has changed.
update_pool : WorkerPool → WorkerPool → WorkerPool
update_pool existing pool = record existing {
  region = pool.region;
  cooldown = pool.cooldown;
  retry_threshold = pool.retry_threshold;
  fault_tolerance = pool.fault_tolerance;
  scaling_enabled = pool.scaling_enabled;
  notification_uid = pool.notification_uid;
  scaling_threshold = pool.scaling_threshold;
}

add_node : Node → Time → WorkerPool → WorkerPool
add_node node now pool = record pool {
  node_registrations = insert node.id now pool.node_registrations;
  nodes = insert node.id node pool.nodes;
}

module _ (hash : WorkerPool → Result ℕ) where
  -- The existing pool, with the new configuration if that has changed.
  pub refresh : WorkerPool → WorkerPool → WorkerPool
  unfolding has_object_changed update_pool
  refresh existing pool =
      if (has_object_changed hash existing pool).0 then update_pool existing pool else existing

  -- `Register`, where the pool is already present.
  pub register_existing : Node → WorkerPool → Time → WorkerPool → NodeRegistry → NodeRegistry
  unfolding refresh add_node
  register_existing node pool now existing r = elim (lookup node.id existing.nodes) [
    | some known ↦ record r {
      worker_pools = insert pool.name (refresh existing pool) r.worker_pools;
    }
    | none ↦
        if pool.scaling_enabled
        then record r {
          worker_pools =
              insert pool.name (add_node node now (refresh existing pool)) r.worker_pools;
          registered_nodes = insert node.id pool.name r.registered_nodes;
        }
        else record r { worker_pools = insert pool.name (refresh existing pool) r.worker_pools }
  ]

  -- `Register`, where the pool is new.
  register_new : Node → WorkerPool → Time → NodeRegistry → NodeRegistry × Bool
  unfolding new_scaling_provider add_node
  register_new node pool now r = elim (new_scaling_provider pool) [
    | err ↦ (r, true)
    | ok provider ↦ (
      record r {
        registered_nodes = insert node.id pool.name r.registered_nodes;
        worker_pools =
            insert pool.name (record (add_node node now pool) { scaling_provider = some provider })
              r.worker_pools;
      },
      false,
    )
  ]

  register_pool : Node → WorkerPool → Time → NodeRegistry → NodeRegistry × Bool
  unfolding register_existing register_new
  register_pool node pool now r = elim (lookup pool.name r.worker_pools) [
    | some existing ↦ (register_existing node pool now existing r, false)
    | none ↦ register_new node pool now r
  ]

  -- `Register` at the time `now`: the registry, and whether an error is returned.
  unfoldable pub register : Node → WorkerPool → Time → NodeRegistry → NodeRegistry × Bool
  unfolding register_pool
  register node pool now r =
      if not (node.status == node_status_ready) || node.drain
      then (r, true)
      else register_pool node pool now r

-- `Deregister` of a node that is registered with the pool `name`. A missing pool is a nil pointer.
deregister_from : String → String → NodeRegistry → Option NodeRegistry
deregister_from node name r = elim (lookup name r.worker_pools) [
  | none ↦ none
  | some pool ↦
      let left : WorkerPool = record pool {
        nodes = erase node pool.nodes;
        node_registrations = erase node pool.node_registrations;
      } in
      some (record r {
        registered_nodes = erase node r.registered_nodes;
        worker_pools =
            if leb (length left.nodes) 0
            then erase left.name (insert name left r.worker_pools)
            else insert name left r.worker_pools;
      })
]

-- `Deregister`: the registry and whether an error is returned.
unfoldable pub deregister : String → NodeRegistry → Option (NodeRegistry × Bool)
unfolding deregister_from
deregister node r = elim (lookup node r.registered_nodes) [
  | none ↦ some (r, true)
  | some name ↦ elim (deregister_from node name r) [ none ↦ none | some r' ↦ some (r', false) ]
]

-- `NodeRegistryUpdated`. When hashing fails the hash is 0.
unfoldable pub node_registry_updated :
    (Dict String String → Result ℕ) → NodeRegistry → NodeRegistry × Bool
node_registry_updated hash r =
    let n : ℕ = elim (hash r.registered_nodes) [ err ↦ 0 | ok h ↦ h ] in
    if r.registered_nodes_hash == n
    then (r, false)
    else (record r { registered_nodes_hash = n }, true)

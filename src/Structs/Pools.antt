-- ===== src/Structs/Pools.antt =====
-- replicator/structs/node_discovery.go, with the fields of a Nomad node that the program reads.
use replicator.Base.{ℕ, String, Bool, false, Option, none, []}
use replicator.Base.Dict.{Dict}
use replicator.Base.Int.{ℤ, pos}
use replicator.Structs.State.{ScalingState, Time}

-- `nomad.Node`. `ip_address` is the attribute `unique.network.ip-address`, empty where it is absent.
pub record Node : Type 0 where
  pub id : String
  pub status : String
  pub drain : Bool
  pub http_addr : String
  pub ip_address : String
  pub meta : Dict String String
  pub cpu : ℤ
  pub memory_mb : ℤ
  pub disk_mb : ℤ

-- The providers of `BuiltinScalingProviders`, with what the provider keeps.
pub data ScalingProvider : Type 0 where
  aws : String → ScalingProvider

pub record WorkerPool : Type 0 where
  pub cooldown : ℤ
  pub fault_tolerance : ℤ
  pub name : String
  pub node_registrations : Dict String Time
  pub nodes : Dict String Node
  pub notification_uid : String
  pub protected_node : String
  pub provider_name : String
  pub region : String
  pub retry_threshold : ℤ
  pub scaling_enabled : Bool
  pub scaling_provider : Option ScalingProvider
  pub scaling_threshold : ℤ
  pub state : Option ScalingState

-- `NewWorkerPool`.
unfoldable pub new_worker_pool : WorkerPool
new_worker_pool = record {
  cooldown = pos 300;
  fault_tolerance = pos 1;
  name = "";
  node_registrations = [];
  nodes = [];
  notification_uid = "";
  protected_node = "";
  provider_name = "";
  region = "";
  retry_threshold = pos 3;
  scaling_enabled = false;
  scaling_provider = none;
  scaling_threshold = pos 3;
  state = none;
}

pub record NodeRegistry : Type 0 where
  pub last_change_index : ℕ
  pub registered_nodes : Dict String String
  pub registered_nodes_hash : ℕ
  pub worker_pools : Dict String WorkerPool

-- `NewNodeRegistry`.
unfoldable pub new_node_registry : NodeRegistry
new_node_registry = record {
  last_change_index = 0;
  registered_nodes = [];
  registered_nodes_hash = 0;
  worker_pools = [];
}

-- ===== src/Config.antt =====
-- replicator/structs/config.go: the configuration of the program and how two of them are merged.
pub mod Laws
pub mod Defaults
pub mod Sort
pub mod Parse
pub mod Load
pub mod Loaded
pub mod Order
use replicator.Base.{String, Bool, Option, none, some, List, if◌then◌else◌, ◌==◌, string_eq}
use replicator.Base.Int.{ℤ, pos, ltz}
use replicator.World.{Notifier}

pub record Telemetry : Type 0 where
  pub statsd_address : String

pub record Notification (W : Type 0) : Type 0 where
  pub cluster_identifier : String
  pub pagerduty_service_key : String
  pub opsgenie_api_key : String
  pub notifiers : List (Notifier W)

-- What the configuration refers to and does not own: the clients of Consul and Nomad, and the
-- addresses of package `net`.
pub record Handles : Type 1 where
  pub ConsulClient : Type 0
  pub NomadClient : Type 0
  pub TcpAddr : Type 0
  -- `&net.TCPAddr{IP: net.ParseIP(…), Port: …}`
  pub tcp_addr : String → ℤ → TcpAddr

-- `Config`. A pointer that may be nil is an option.
pub record Config (H : Handles) (W : Type 0) : Type 0 where
  pub bind_address : String
  pub cluster_scaling_disable : Bool
  pub cluster_scaling_interval : ℤ
  pub consul : String
  pub consul_client : Option H.ConsulClient
  pub consul_key_root : String
  pub consul_token : String
  pub http_port : String
  pub job_scaling_disable : Bool
  pub job_scaling_interval : ℤ
  pub log_level : String
  pub nomad : String
  pub nomad_token : String
  pub nomad_tls_server_name : String
  pub nomad_client : Option H.NomadClient
  pub notification : Option (Notification W)
  pub rpc_addr : Option H.TcpAddr
  pub rpc_advertise : Option H.TcpAddr
  pub rpc_port : ℤ
  pub scaling_concurrency : ℤ
  pub telemetry : Option Telemetry

-- `if b != "" { c = b }`
unfoldable pub merge_string : String → String → String
merge_string c b = if b == "" then c else b

-- `if b > 0 { c = b }`
unfoldable pub merge_int : ℤ → ℤ → ℤ
merge_int c b = if ltz (pos 0) b then b else c

-- `if b { c = b }`
unfoldable pub merge_bool : Bool → Bool → Bool
merge_bool c b = if b then b else c

-- The merge of two pointers: a copy where there is none yet.
unfoldable pub merge_pointer : {A : Type 0} → (A → A → A) → Option A → Option A → Option A
merge_pointer merge c none = c
merge_pointer merge none (some b) = some b
merge_pointer merge (some c) (some b) = some (merge c b)

-- `(*Telemetry).Merge`.
unfoldable pub merge_telemetry : Telemetry → Telemetry → Telemetry
merge_telemetry t b = record t { statsd_address = merge_string t.statsd_address b.statsd_address }

module _ {W : Type 0} where
  -- `(*Notification).Merge`.
  unfoldable pub merge_notification : Notification W → Notification W → Notification W
  merge_notification n b = record n {
    cluster_identifier = merge_string n.cluster_identifier b.cluster_identifier;
    pagerduty_service_key = merge_string n.pagerduty_service_key b.pagerduty_service_key;
    opsgenie_api_key = merge_string n.opsgenie_api_key b.opsgenie_api_key;
  }

  -- `(*Config).Merge`.
  unfoldable pub merge : {H : Handles} → Config H W → Config H W → Config H W
  merge c b = record c {
    bind_address = merge_string c.bind_address b.bind_address;
    nomad = merge_string c.nomad b.nomad;
    nomad_token = merge_string c.nomad_token b.nomad_token;
    nomad_tls_server_name = merge_string c.nomad_tls_server_name b.nomad_tls_server_name;
    consul = merge_string c.consul b.consul;
    consul_token = merge_string c.consul_token b.consul_token;
    consul_key_root = merge_string c.consul_key_root b.consul_key_root;
    log_level = merge_string c.log_level b.log_level;
    cluster_scaling_interval = merge_int c.cluster_scaling_interval b.cluster_scaling_interval;
    job_scaling_interval = merge_int c.job_scaling_interval b.job_scaling_interval;
    cluster_scaling_disable = merge_bool c.cluster_scaling_disable b.cluster_scaling_disable;
    job_scaling_disable = merge_bool c.job_scaling_disable b.job_scaling_disable;
    http_port = merge_string c.http_port b.http_port;
    rpc_port = merge_int c.rpc_port b.rpc_port;
    scaling_concurrency = merge_int c.scaling_concurrency b.scaling_concurrency;
    telemetry = merge_pointer merge_telemetry c.telemetry b.telemetry;
    notification = merge_pointer merge_notification c.notification b.notification;
  }

-- ===== src/Config/Defaults.antt =====
-- The default configurations of command/base/config.go, and the flags of command/agent/agent.go.
use replicator.Base.{String, false, none, some, []}
use replicator.Base.Int.{ℤ, pos}
use replicator.Config.{Config, Handles, Telemetry, Notification}

abbrev pub default_bind_addr : String
default_bind_addr = "127.0.0.1"

abbrev pub default_rpc_port : ℤ
default_rpc_port = pos 1314

-- `&structs.Telemetry{}`
abbrev pub empty_telemetry : Telemetry
empty_telemetry = record { statsd_address = "" }

module _ {W : Type 0} where
  -- `&structs.Notification{}`
  abbrev pub empty_notification : Notification W
  empty_notification = record {
    cluster_identifier = "";
    pagerduty_service_key = "";
    opsgenie_api_key = "";
    notifiers = [];
  }

  module _ {H : Handles} where
    -- `&structs.Config{}`
    unfoldable pub empty_config : Config H W
    empty_config = record {
      bind_address = "";
      cluster_scaling_disable = false;
      cluster_scaling_interval = pos 0;
      consul = "";
      consul_client = none;
      consul_key_root = "";
      consul_token = "";
      http_port = "";
      job_scaling_disable = false;
      job_scaling_interval = pos 0;
      log_level = "";
      nomad = "";
      nomad_token = "";
      nomad_tls_server_name = "";
      nomad_client = none;
      notification = none;
      rpc_addr = none;
      rpc_advertise = none;
      rpc_port = pos 0;
      scaling_concurrency = pos 0;
      telemetry = none;
    }

    -- `DefaultConfig`
    unfoldable pub default_config : Config H W
    unfolding empty_config
    default_config = record empty_config {
      bind_address = default_bind_addr;
      consul = "localhost:8500";
      consul_key_root = "replicator/config";
      nomad = "http://localhost:4646";
      log_level = "INFO";
      cluster_scaling_interval = pos 10;
      job_scaling_interval = pos 10;
      http_port = "1313";
      rpc_port = default_rpc_port;
      rpc_addr = some (H.tcp_addr default_bind_addr default_rpc_port);
      scaling_concurrency = pos 10;
      telemetry = some empty_telemetry;
      notification = some empty_notification;
    }

    -- `DevConfig`
    unfoldable pub dev_config : Config H W
    unfolding empty_config
    dev_config = record empty_config {
      bind_address = default_bind_addr;
      consul = "localhost:8500";
      consul_key_root = "replicator/config";
      nomad = "http://localhost:4646";
      log_level = "DEBUG";
      cluster_scaling_interval = pos 10;
      job_scaling_interval = pos 10;
      http_port = "1313";
      rpc_port = default_rpc_port;
      rpc_addr = some (H.tcp_addr default_bind_addr default_rpc_port);
      scaling_concurrency = pos 10;
      telemetry = some empty_telemetry;
      notification = some empty_notification;
    }

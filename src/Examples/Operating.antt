-- ===== src/Examples/Operating.antt =====
-- The failsafe command and the agent's signals at concrete inputs.
use replicator.Base.{
  String, string_eq, true, false, some, none, [], ◌∷◌, ◌++◌, ◌≡◌, ◌↔◌, refl, Result, ok, M,
}
use replicator.Base.Int.{pos, ◌<ℤ◌}
use replicator.Structs.{ScalingState, new_scaling_state}
use replicator.World.{FailureMessage}
use replicator.State.{persist_state, read_state}
use replicator.Failsafe.{failsafe_check, set_failsafe_mode}
use replicator.Config.{
  merge, merge_string, merge_int, merge_telemetry, merge_notification, merge_pointer,
}
use replicator.Config.Defaults.{default_config, empty_config}
use replicator.Config.Load.{cli_config, parse_flags}
use replicator.Command.{Clients, FailsafeFlags, run_mode, set_mode, initialize_clients}
use replicator.Command.Confirmed.{run_mode_unconfirmed, set_mode-read_state}
use replicator.Notify.{Services}
use replicator.Leader.{Sessions, new_leader_candidate, end_campaign}
use replicator.Server.{
  Server, Sockets, leader_ticker, rpc_listener, scaling_routines, leader_lock_timeout, new_server,
  setup_rpc, shutdown,
}
use replicator.Agent.{
  Outside, Signal, Agent, panicking, handle_signal, reload, start_servers, initialize_agent,
  setup_telemetry, setup_notifier,
}
use replicator.Agent.Reload.{handle_signal_twice}
use replicator.Examples.Concrete.{World, new_world, consul, consul-IsFaithful, pager}
use replicator.Examples.Settings.{handles, hcl, files, no_flags}

abbrev message : FailureMessage
message = record {
  alert_uid = "uid";
  cluster_identifier = "";
  reason = "";
  resource_id = "web";
  resource_type = "worker_pool";
  state_path = "";
}

abbrev path : String
path = "replicator/config/state/nodes/web"

abbrev state : ScalingState
state = new_scaling_state "web" "worker_pool" path

abbrev stored : World
stored = (persist_state consul state new_world).0

abbrev enable_flags : FailsafeFlags
enable_flags = record {
  config_path = "";
  consul = "";
  consul_token = "";
  state_path = path;
  enable = true;
  disable = false;
  force = false;
}

abbrev refuse : M World (Result String)
refuse w = (w, ok "no")

run_mode_unconfirmed_example :
    (run_mode consul (pager ∷ []) refuse enable_flags stored).0.store ≡ stored.store
run_mode_unconfirmed_example =
    run_mode_unconfirmed consul (pager ∷ []) refuse (λ w. w.store ≡ stored.store) (λ key w h. h)
      (λ w h. h) enable_flags stored refl (λ w e. cc) refl

set_mode-read_state_example :
    let r = set_mode consul (pager ∷ []) true state new_world in
    let read = read_state consul state true r.0 in
    ((failsafe_check consul (pager ∷ []) read.1 (pos 3) message read.0).1.1 ≡ true)
    ↔ ((true ≡ false) × (pos 0 <ℤ pos 3))
unfolding set_mode set_failsafe_mode persist_state new_scaling_state
set_mode-read_state_example =
    set_mode-read_state consul (pager ∷ []) true true state state (pos 3) message new_world
      consul-IsFaithful refl refl

abbrev sessions : Sessions World
sessions = record {
  holder = λ key w. (w, ok none);
  session_info = λ id w. (w, ok true);
  acquire = λ key id w. (w, ok true);
  create_session = λ ttl w. (w, ok "session");
  release = λ key id w. w;
  stop_renewal = λ w. w;
}

abbrev sockets : Sockets handles World
sockets = record {
  listen_tcp = λ addr w. (w, ok (record { is_tcp = true; is_unspecified = false }));
  close_listener = λ w. w;
}

abbrev outside : Outside handles World
outside = record {
  new_statsd_sink = λ address w. (w, false);
  new_global = λ statsd w. w;
  new_http_server = λ config w. (w, false);
  shutdown_http = λ w. w;
}

abbrev clients : Clients handles
clients = record {
  new_nomad_client = λ address token name. ok tt;
  new_consul_client = λ address token. ok tt;
}

abbrev services : Services World
services = record { create_event = λ event w. w; create_alert = λ alert w. w }

abbrev server : Server handles World
server = record {
  candidate = new_leader_candidate "replicator/config/leader" leader_lock_timeout;
  config = default_config;
  routines = leader_ticker ∷ (scaling_routines false false ++ (rpc_listener ∷ []));
  listening = true;
  stopped = false;
}

abbrev agent : Agent handles World
agent = record { conf = default_config; variable = server; field = server }

abbrev reloaded : Agent handles World
reloaded = record agent { variable = record server { stopped = true } }

handle_signal_twice_example :
    (server.config ≡ agent.conf)
    × ((signal : Signal) (w : World)
        → (handle_signal hcl clients services outside sessions sockets
            (some no_flags)
            signal
            reloaded
            w).1
          ≡ panicking)
unfolding handle_signal reload start_servers new_server setup_rpc shutdown end_campaign parse_flags
    initialize_agent setup_telemetry setup_notifier initialize_clients string_eq default_config
    empty_config cli_config merge merge_string merge_int merge_pointer merge_telemetry
    merge_notification
handle_signal_twice_example =
    handle_signal_twice hcl clients services outside sessions sockets (some no_flags) files agent
      reloaded new_world refl

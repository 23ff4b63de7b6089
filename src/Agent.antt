-- ===== src/Agent.antt =====
-- command/agent/agent.go: the agent's start and its reactions to signals. Metrics, the HTTP server and
-- the parsing of flags are parameters; logging is left out.
pub mod Reload
use replicator.Base.{
  ℕ, String, Bool, true, false, not, ◌&&◌, ◌||◌, Option, none, some, List, [], ◌∷◌, ◌++◌,
  if◌then◌else◌, ◌==◌, string_eq, Result, ok, err, M,
}
use replicator.Base.Int.{ℤ, eqz}
use replicator.World.{Notifier}
use replicator.Notify.{Services, new_provider}
use replicator.Leader.{Sessions}
use replicator.Config.{Config, Handles, Notification, Telemetry}
use replicator.Config.Defaults.{default_bind_addr, default_rpc_port}
use replicator.Config.Parse.{Hcl, Outcome, crashed, failing, returned}
use replicator.Config.Load.{Files, AgentFlags, parse_flags}
use replicator.Command.{Clients, initialize_clients}
use replicator.Server.{Server, Sockets, new_server, shutdown}

-- Metrics and the HTTP server.
pub record Outside (H : Handles) (W : Type 0) : Type 0 where
  -- `metrics.NewStatsdSink`; `true` is an error.
  pub new_statsd_sink : String → M W Bool
  -- `metrics.NewGlobal`, with or without the sink of statsd.
  pub new_global : Bool → W → W
  -- `NewHTTPServer`; `true` is an error.
  pub new_http_server : Config H W → M W Bool
  pub shutdown_http : W → W

module _ {W : Type 0} (services : Services W) where
  -- A backend for a key that is set.
  unfoldable pub add_notifier :
      String → String → String → List (Notifier W) → Result (List (Notifier W))
  unfolding new_provider
  add_notifier name field key notifiers =
      if key == "" then ok notifiers else elim (new_provider services name ((field, key) ∷ [])) [
        | err ↦ err
        | ok n ↦ ok (notifiers ++ (n ∷ []))
      ]

  -- `setupNotifier`
  unfoldable pub setup_notifier : Notification W → Result (Notification W)
  unfolding add_notifier
  setup_notifier config =
      elim (add_notifier "pagerduty" "PagerDutyServiceKey" config.pagerduty_service_key
        config.notifiers) [
          | err ↦ err
          | ok ns ↦ elim (add_notifier "opsgenie" "OpsGenieAPIKey" config.opsgenie_api_key ns) [
            | err ↦ err
            | ok ns' ↦ ok (record config { notifiers = ns' })
          ]
        ]

module _ {H : Handles} {W : Type 0} (outside : Outside H W) where
  -- `setupTelemetry`; `true` is an error.
  unfoldable pub setup_telemetry : Option Telemetry → M W Bool
  setup_telemetry config w =
      let address : String = elim config [ none ↦ "" | some t ↦ t.statsd_address ] in
      if address == ""
      then (outside.new_global false w, false)
      else (let (w', failure) = outside.new_statsd_sink address w in
          if failure then (w', true) else (outside.new_global true w', false))

  module _ (services : Services W) (clients : Clients H) where
    -- `initialzeAgent`. A configuration without notifications is a panic.
    unfoldable pub initialize_agent : Config H W → M W (Outcome (Config H W))
    unfolding setup_telemetry setup_notifier initialize_clients
    initialize_agent config w =
        let addressed : Config H W =
          (if not (config.bind_address == default_bind_addr)
              || not (eqz config.rpc_port default_rpc_port)
            then record config { rpc_addr = some (H.tcp_addr config.bind_address config.rpc_port) }
            else config) in
        let (w', failure) = setup_telemetry addressed.telemetry w in
        if failure then (w', failing) else (
          w',
          elim addressed.notification [
            | none ↦ crashed
            | some notification ↦ elim (setup_notifier services notification) [
              | err ↦ failing
              | ok n ↦
                  elim (initialize_clients clients (record addressed { notification = some n })) [
                    | err ↦ failing
                    | ok ready ↦ returned ready
                  ]
            ]
          ],
        )

-- The signals that the agent is notified of. A hangup comes with the files as they are then.
pub data Signal : Type 0 where
  interrupt terminate quit : Signal
  hangup : Files → Signal

-- The agent between signals: the variable `server` of `Run` and the field `server` of the command.
pub record Agent (H : Handles) (W : Type 0) : Type 0 where
  pub conf : Config H W
  pub variable : Server H W
  pub field : Server H W

pub data Next (H : Handles) (W : Type 0) : Type 0 where
  panicking : Next H W
  exited : ℕ → Next H W
  serving : Agent H W → Next H W

module _ {H : Handles} {W : Type 0} (hcl : Hcl H W) (clients : Clients H) (services : Services W)
    (outside : Outside H W) (sessions : Sessions W) (sockets : Sockets H W)
    (flags : Option AgentFlags) where
  -- A new server and its HTTP server; the server is what becomes the field.
  unfoldable pub start_servers : Config H W → M W (Option (Server H W))
  unfolding new_server
  start_servers conf w =
      let (w1, reply) = new_server sessions sockets conf w in
      elim reply [
        | err ↦ (w1, none)
        | ok server ↦
            let (w2, failure) = outside.new_http_server conf w1 in
            (w2, if failure then none else some server)
      ]

  -- `Run` up to the loop over signals.
  unfoldable pub start_agent : Files → M W (Next H W)
  unfolding parse_flags initialize_agent start_servers
  start_agent fs w = elim (parse_flags hcl fs flags) [
    | crashed ↦ (w, panicking)
    | failing ↦ (w, exited 1)
    | returned config ↦
        let (w1, ready) = initialize_agent outside services clients config w in
        elim ready [
          | crashed ↦ (w1, panicking)
          | failing ↦ (w1, exited 1)
          | returned conf ↦
              let (w2, started) = start_servers conf w1 in
              (
                w2,
                elim started [
                  | none ↦ exited 1
                  | some server ↦
                      serving (record { conf = conf; variable = server; field = server })
                ],
              )
        ]
  ]

  -- The reload, after the servers were shut down. The test after `parseFlags` looks at an older error,
  -- so that a nil configuration is used, and the new server gets the old configuration and is not
  -- stored in the variable.
  unfoldable pub reload : Files → Agent H W → M W (Next H W)
  unfolding parse_flags initialize_agent start_servers
  reload fs a w = elim (parse_flags hcl fs flags) [
    | crashed ↦ (w, panicking)
    | failing ↦ (w, panicking)
    | returned config ↦
        let (w1, ready) = initialize_agent outside services clients config w in
        elim ready [
          | crashed ↦ (w1, panicking)
          | failing ↦ (w1, exited 1)
          | returned reloaded ↦
              let (w2, started) = start_servers a.conf w1 in
              (
                w2,
                elim started [
                  | none ↦ exited 1
                  | some server ↦ serving (record a { field = server })
                ],
              )
        ]
  ]

  after_shutdown : Signal → Agent H W → M W (Next H W)
  unfolding reload
  after_shutdown (hangup fs) a w = reload fs a w
  after_shutdown interrupt a w = (w, exited 1)
  after_shutdown terminate a w = (w, exited 1)
  after_shutdown quit a w = (w, exited 1)

  -- The reaction to a signal.
  unfoldable pub handle_signal : Signal → Agent H W → M W (Next H W)
  unfolding after_shutdown shutdown
  handle_signal signal a w =
      let (w1, stopped) = shutdown sessions sockets a.variable w in
      elim stopped [
        | none ↦ (w1, panicking)
        | some server ↦
            after_shutdown signal (record a { variable = server }) (outside.shutdown_http w1)
      ]

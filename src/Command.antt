-- ===== src/Command.antt =====
-- command/failsafe.go: the command by which an operator turns the failsafe mode of a worker pool or job
-- group on or off, and `InitializeClients` of command/base/config.go. The terminal, the parsing of
-- flags and the clients are parameters; what is printed is left out.
pub mod Confirmed
use Prim.Native.String.{len}
use text.Mathlib.Text.{starts_with}
use replicator.Base.{
  ℕ, String, Bool, true, false, not, ◌&&◌, ◌||◌, Option, none, some, List, [], ◌∷◌, if◌then◌else◌,
  ◌==◌, string_eq, nat_eq, ltb, Result, ok, err, M, pure, ◌>>=◌,
}
use replicator.Structs.{ScalingState, new_scaling_state}
use replicator.World.{Consul, Notifier, FailureMessage}
use replicator.State.{read_state, persist_state}
use replicator.Failsafe.{set_failsafe_mode}
use replicator.Config.{Config, Handles, Notification, merge}
use replicator.Config.Defaults.{default_config, empty_config}
use replicator.Config.Parse.{Hcl, Outcome, crashed, failing, returned, and_then}
use replicator.Config.Load.{Files, load_config}

-- `NewNomadClient` and `NewConsulClient`.
pub record Clients (H : Handles) : Type 0 where
  pub new_nomad_client : String → String → String → Result H.NomadClient
  pub new_consul_client : String → String → Result H.ConsulClient

-- `InitializeClients`
unfoldable pub initialize_clients :
    {H : Handles} {W : Type 0} → Clients H → Config H W → Result (Config H W)
initialize_clients clients config =
    elim (clients.new_nomad_client config.nomad config.nomad_token config.nomad_tls_server_name) [
      | err ↦ err
      | ok nomad ↦ elim (clients.new_consul_client config.consul config.consul_token) [
        | err ↦ err
        | ok consul ↦ ok (record config { consul_client = some consul; nomad_client = some nomad })
      ]
    ]

-- The flags of the command with their values.
pub record FailsafeFlags : Type 0 where
  pub config_path : String
  pub consul : String
  pub consul_token : String
  pub state_path : String
  pub enable : Bool
  pub disable : Bool
  pub force : Bool

-- `parseFlags`: the merged configuration.
unfoldable pub failsafe_config :
    {H : Handles} {W : Type 0} → Hcl H W → Files → FailsafeFlags → Outcome (Config H W)
unfolding load_config merge default_config empty_config and_then
failsafe_config {H} {W} hcl fs flags =
    let cli : Config H W = record empty_config {
      consul = flags.consul;
      consul_token = flags.consul_token;
    } in
    if flags.config_path == ""
    then returned (merge default_config cli)
    else and_then (load_config hcl fs flags.config_path)
        (λ current. returned (merge (merge default_config current) cli))

-- What the answer to the question means: to go on, or to leave with an exit code.
unfoldable pub judge_answer : Result String → Option ℕ
judge_answer err = some 1
judge_answer (ok answer) =
    if answer == "" || (starts_with answer "n" || starts_with answer "N")
    then some 0
    else if (starts_with answer "y" || starts_with answer "Y") && ltb 1 (len answer)
    then some 0
    else if not (answer == "y")
    then some 1
    else none

-- The message of the command.
unfoldable pub admin_message : ScalingState → FailureMessage
admin_message s = record {
  alert_uid = "replicator-failsafe-admin-cli";
  cluster_identifier = "";
  reason = "";
  resource_id = s.resource_name;
  resource_type = s.resource_type;
  state_path = "";
}

module _ {W B : Type 0} (c : Consul W B) (notifiers : List (Notifier W)) where
  -- The end of `Run`: the state as it was last persisted, the exit code, and whether that last write
  -- failed, which is only reported.
  unfoldable pub set_mode : Bool → ScalingState → M W (ScalingState × ℕ × Bool)
  unfolding admin_message
  set_mode enable s w =
      let admin : ScalingState = record s { failsafe_admin = true } in
      let (w1, (s1, refused)) = set_failsafe_mode c notifiers admin enable (admin_message s) w in
      if refused
      then (w1, (s1, 1, true))
      else (let (w2, (s2, lost)) = persist_state c s1 w1 in (w2, (s2, 0, lost)))

  module _ (ask : M W (Result String)) where
    -- The confirmation and what follows it.
    unfoldable pub confirm_mode : FailsafeFlags → ScalingState → M W ℕ
    unfolding set_mode judge_answer
    confirm_mode flags s w =
        if flags.force
        then (let (w1, r) = set_mode flags.enable s w in (w1, r.1))
        else (let (w1, reply) = ask w in
            elim (judge_answer reply) [
              | some code ↦ (w1, code)
              | none ↦ let (w2, r) = set_mode flags.enable s w1 in (w2, r.1)
            ])

    -- `Run` from the test of the flags on.
    unfoldable pub run_mode : FailsafeFlags → M W ℕ
    unfolding confirm_mode
    run_mode flags w =
        if flags.enable && flags.disable || not flags.enable && not flags.disable
        then (w, 1)
        else (let (w1, s) = read_state c (new_scaling_state "" "" flags.state_path) false w in
            if s.last_updated == 0
            then (w1, 1)
            else if s.failsafe_mode && flags.enable || not s.failsafe_mode && flags.disable
            then (w1, 0)
            else confirm_mode flags s w1)

-- The backends of a configuration; the command's configuration always has the part.
unfoldable pub notifiers_of : {W : Type 0} → Option (Notification W) → List (Notifier W)
notifiers_of none = []
notifiers_of (some n) = n.notifiers

-- `Run` of the command on its arguments; `none` in the place of the flags are flags that cannot be
-- parsed, and in the place of the exit code a panic.
unfoldable pub run_failsafe :
    {H : Handles} {W B : Type 0}
    → Hcl H W
    → Files
    → Clients H
    → (H.ConsulClient → Consul W B)
    → M W (Result String)
    → List String
    → Option FailsafeFlags
    → M W (Option ℕ)
unfolding failsafe_config initialize_clients run_mode notifiers_of
run_failsafe hcl fs clients api ask [] flags w = (w, some 1)
run_failsafe hcl fs clients api ask (arg ∷ args) none w = (w, some 1)
run_failsafe hcl fs clients api ask (arg ∷ args) (some flags) w =
    elim (failsafe_config hcl fs flags) [
      | crashed ↦ (w, none)
      | failing ↦ (w, some 1)
      | returned conf ↦ elim (initialize_clients clients conf) [
        | err ↦ (w, some 1)
        | ok config ↦ elim config.consul_client [
          | none ↦ (w, none)
          | some client ↦
              let (w', code) =
                run_mode (api client) (notifiers_of config.notification) ask flags w in
              (w', some code)
        ]
      ]
    ]

-- ===== src/Config/Load.antt =====
-- `LoadConfig` and `LoadConfigDir` of command/base/config.go, and the merge of defaults, files and
-- flags in `parseFlags` of command/agent/agent.go and command/failsafe.go. Files, paths and flags are
-- parameters.
use replicator.Base.{
  ◌-◌, String, Bool, ◌||◌, ◌&&◌, Option, none, some, List, [], ◌∷◌, ◌++◌, if◌then◌else◌, ◌==◌,
  string_eq, leb, Result, ok, err,
}
use replicator.Base.Int.{ℤ}
use replicator.Config.{Config, Handles, merge}
use replicator.Config.Defaults.{empty_config, default_config, dev_config, empty_notification}
use replicator.Config.Sort.{sort_strings}
use replicator.Config.Parse.{
  Hcl, Outcome, crashed, failing, returned, and_then, of_result, parse_config_file,
}
use Prim.Native.String.{len, slice}

-- os.FileInfo.
pub record FileInfo : Type 0 where
  pub name : String
  pub is_dir : Bool

-- An opened path: what `Stat` says of it, and the answers of `Readdir` up to the end of the directory.
pub record Opened : Type 0 where
  pub stat : Result Bool
  pub batches : List (Result (List FileInfo))

-- The files, as the program reads them.
pub record Files : Type 0 where
  -- `os.Stat`: whether the path is a directory.
  pub stat : String → Result Bool
  -- `os.Open`
  pub open_path : String → Result Opened
  -- `filepath.Clean` and `filepath.Join`
  pub clean : String → String
  pub join : String → String → String
  -- `filepath.Abs`, and the text of a file.
  pub abs : String → Result String
  pub read : String → Result String

-- `strings.HasSuffix`
unfoldable pub has_suffix : String → String → Bool
has_suffix s t = leb (len t) (len s) && slice s (len s - len t) (len s) == t

-- The paths of the files of a batch that are kept.
unfoldable pub config_files : Files → String → List FileInfo → List String
unfolding has_suffix
config_files fs dir [] = []
config_files fs dir (fi ∷ fis) =
    let rest = config_files fs dir fis in
    if fi.is_dir
    then rest
    else if has_suffix fi.name ".hcl" || has_suffix fi.name ".json"
    then fs.join dir fi.name ∷ rest
    else rest

-- The loop over `Readdir`.
unfoldable pub read_batches : Files → String → List (Result (List FileInfo)) → Result (List String)
unfolding config_files
read_batches fs dir [] = ok []
read_batches fs dir (err ∷ batches) = err
read_batches fs dir (ok fis ∷ batches) = elim (read_batches fs dir batches) [
  | err ↦ err
  | ok files ↦ ok (config_files fs dir fis ++ files)
]

module _ {H : Handles} {W : Type 0} (hcl : Hcl H W) (fs : Files) where
  -- `ParseConfigFile`
  unfoldable pub load_file : String → Outcome (Config H W)
  unfolding parse_config_file
  load_file path = parse_config_file hcl fs.abs fs.read path

  -- The loop over the files, on top of the configuration so far.
  unfoldable pub load_files : Option (Config H W) → List String → Outcome (Option (Config H W))
  unfolding load_file and_then
  load_files result [] = returned result
  load_files result (f ∷ files) =
      and_then (load_file f) (λ config.
        load_files (some (elim result [ none ↦ config | some c ↦ merge c config ])) files)

  -- What follows the loop over `Readdir`.
  unfoldable pub load_listed : List String → Outcome (Config H W)
  unfolding load_files sort_strings and_then
  load_listed [] = returned empty_config
  load_listed (f ∷ files) =
      and_then (load_files none (sort_strings (f ∷ files)))
        (λ result. elim result [ none ↦ crashed | some c ↦ returned c ])

  -- `LoadConfigDir`
  unfoldable pub load_config_dir : String → Outcome (Config H W)
  unfolding load_listed read_batches and_then of_result
  load_config_dir dir = and_then (of_result (fs.open_path dir)) (λ f.
      and_then (of_result f.stat) (λ is_dir.
        if is_dir
        then and_then (of_result (read_batches fs dir f.batches)) load_listed
        else failing))

  -- `LoadConfig`
  unfoldable pub load_config : String → Outcome (Config H W)
  unfolding load_config_dir
  load_config path =
      and_then (of_result (fs.stat path))
        (λ is_dir. if is_dir then load_config_dir path else load_file (fs.clean path))

-- The flags of the agent with their values; a flag that is not given has its default, which is empty.
pub record AgentFlags : Type 0 where
  pub config_path : String
  pub dev : Bool
  pub bind_address : String
  pub consul : String
  pub consul_key_root : String
  pub consul_token : String
  pub log_level : String
  pub nomad : String
  pub nomad_token : String
  pub nomad_tls_server_name : String
  pub cluster_scaling_interval : ℤ
  pub job_scaling_interval : ℤ
  pub scaling_concurrency : ℤ
  pub cluster_scaling_disable : Bool
  pub job_scaling_disable : Bool
  pub http_port : String
  pub rpc_port : ℤ
  pub statsd_address : String
  pub cluster_identifier : String
  pub pagerduty_service_key : String
  pub opsgenie_api_key : String

module _ {H : Handles} {W : Type 0} where
  -- The configuration that the flags are bound to.
  unfoldable pub cli_config : AgentFlags → Config H W
  cli_config flags = record empty_config {
    bind_address = flags.bind_address;
    consul = flags.consul;
    consul_key_root = flags.consul_key_root;
    consul_token = flags.consul_token;
    log_level = flags.log_level;
    nomad = flags.nomad;
    nomad_token = flags.nomad_token;
    nomad_tls_server_name = flags.nomad_tls_server_name;
    cluster_scaling_interval = flags.cluster_scaling_interval;
    job_scaling_interval = flags.job_scaling_interval;
    scaling_concurrency = flags.scaling_concurrency;
    cluster_scaling_disable = flags.cluster_scaling_disable;
    job_scaling_disable = flags.job_scaling_disable;
    http_port = flags.http_port;
    rpc_port = flags.rpc_port;
    telemetry = some (record { statsd_address = flags.statsd_address });
    notification = some (record empty_notification {
      cluster_identifier = flags.cluster_identifier;
      pagerduty_service_key = flags.pagerduty_service_key;
      opsgenie_api_key = flags.opsgenie_api_key;
    });
  }

  -- `parseFlags` of the agent; `none` are flags that cannot be parsed. An error is a nil configuration.
  unfoldable pub parse_flags : Hcl H W → Files → Option AgentFlags → Outcome (Config H W)
  unfolding load_config cli_config default_config dev_config merge and_then
  parse_flags hcl fs none = failing
  parse_flags hcl fs (some flags) =
      let config : Config H W = (if flags.dev then dev_config else default_config) in
      if flags.config_path == ""
      then returned (merge config (cli_config flags))
      else and_then (load_config hcl fs flags.config_path)
          (λ current. returned (merge (merge config current) (cli_config flags)))

-- ===== src/Config/Loaded.antt =====
-- What the configuration is that the program starts with.
use mathlib.Core.Path.{subst}
use replicator.Base.{
  String, Bool, true, false, Option, none, some, ◌≡◌, ◌≢◌, refl, inl, inr, Bool-cases, ◌==◌,
  string_eq, if◌then◌else◌, arith,
}
use replicator.Base.Int.{ℤ, pos, ◌<ℤ◌}
use replicator.Config.{Config, Handles, merge, merge_string, merge_int, merge_bool, merge_pointer}
use replicator.Config.Defaults.{empty_config, default_config, dev_config}
use replicator.Config.Parse.{Hcl, Outcome, crashed, failing, returned, and_then}
use replicator.Config.Load.{Files, AgentFlags, load_config, cli_config, parse_flags}

merge_string_set : (a b : String) → a ≢ "" → merge_string a b ≢ ""
unfolding merge_string
merge_string_set a b h = ground arith

merge_int_set : (a b : ℤ) → pos 0 <ℤ a → pos 0 <ℤ merge_int a b
unfolding merge_int
merge_int_set a b h = ground arith

merge_pointer_set :
    {A : Type 0} (m : A → A → A) (a b : Option A) → a ≢ none → merge_pointer m a b ≢ none
unfolding merge_pointer
merge_pointer_set m a none h = h
merge_pointer_set m none (some b) h = λ e. cc
merge_pointer_set m (some a) (some b) h = λ e. cc

returned-inj : {A : Type 0} (a b : A) → returned a ≡ returned b → a ≡ b
returned-inj a b h = cc

module _ {H : Handles} {W : Type 0} where
  -- A configuration in which nothing is set changes nothing that it is merged into.
  pub merge-empty_config : (c : Config H W) → merge c empty_config ≡ c
  unfolding merge empty_config merge_string merge_int merge_bool merge_pointer
  merge-empty_config c = ground arith

  -- A configuration that the program can run with: its tickers have positive intervals, every address
  -- is given, and the parts that the agent follows pointers to are there.
  pub record IsUsable (c : Config H W) : Type 0 where
    pub bind_address : c.bind_address ≢ ""
    pub consul : c.consul ≢ ""
    pub consul_key_root : c.consul_key_root ≢ ""
    pub nomad : c.nomad ≢ ""
    pub log_level : c.log_level ≢ ""
    pub http_port : c.http_port ≢ ""
    pub cluster_scaling_interval : pos 0 <ℤ c.cluster_scaling_interval
    pub job_scaling_interval : pos 0 <ℤ c.job_scaling_interval
    pub rpc_port : pos 0 <ℤ c.rpc_port
    pub scaling_concurrency : pos 0 <ℤ c.scaling_concurrency
    pub telemetry : c.telemetry ≢ none
    pub notification : c.notification ≢ none
    pub rpc_addr : c.rpc_addr ≢ none

  -- Merging into a usable configuration leaves a usable one.
  merge-IsUsable : (c b : Config H W) → IsUsable c → IsUsable (merge c b)
  unfolding merge
  merge-IsUsable c b u = record {
    bind_address = merge_string_set c.bind_address b.bind_address u.bind_address;
    consul = merge_string_set c.consul b.consul u.consul;
    consul_key_root = merge_string_set c.consul_key_root b.consul_key_root u.consul_key_root;
    nomad = merge_string_set c.nomad b.nomad u.nomad;
    log_level = merge_string_set c.log_level b.log_level u.log_level;
    http_port = merge_string_set c.http_port b.http_port u.http_port;
    cluster_scaling_interval =
        merge_int_set c.cluster_scaling_interval b.cluster_scaling_interval
          u.cluster_scaling_interval;
    job_scaling_interval =
        merge_int_set c.job_scaling_interval b.job_scaling_interval u.job_scaling_interval;
    rpc_port = merge_int_set c.rpc_port b.rpc_port u.rpc_port;
    scaling_concurrency =
        merge_int_set c.scaling_concurrency b.scaling_concurrency u.scaling_concurrency;
    telemetry = merge_pointer_set _ c.telemetry b.telemetry u.telemetry;
    notification = merge_pointer_set _ c.notification b.notification u.notification;
    rpc_addr = u.rpc_addr;
  }

  default_config-IsUsable : IsUsable default_config
  unfolding default_config empty_config
  default_config-IsUsable = record {
    bind_address = λ e. cc;
    consul = λ e. cc;
    consul_key_root = λ e. cc;
    nomad = λ e. cc;
    log_level = λ e. cc;
    http_port = λ e. cc;
    cluster_scaling_interval = omega arith;
    job_scaling_interval = omega arith;
    rpc_port = omega arith;
    scaling_concurrency = omega arith;
    telemetry = λ e. cc;
    notification = λ e. cc;
    rpc_addr = λ e. cc;
  }

  log_level-IsUsable :
      (c : Config H W) (level : String)
      → level ≢ ""
      → IsUsable c
      → IsUsable (record c { log_level = level })
  log_level-IsUsable c level h u = record {
    bind_address = u.bind_address;
    consul = u.consul;
    consul_key_root = u.consul_key_root;
    nomad = u.nomad;
    log_level = h;
    http_port = u.http_port;
    cluster_scaling_interval = u.cluster_scaling_interval;
    job_scaling_interval = u.job_scaling_interval;
    rpc_port = u.rpc_port;
    scaling_concurrency = u.scaling_concurrency;
    telemetry = u.telemetry;
    notification = u.notification;
    rpc_addr = u.rpc_addr;
  }

  start-IsUsable : (dev : Bool) → IsUsable (if dev then dev_config else default_config)
  unfolding dev_config default_config
  start-IsUsable true = log_level-IsUsable default_config "DEBUG" (λ e. cc) default_config-IsUsable
  start-IsUsable false = default_config-IsUsable

  -- Whatever the files and the flags say, the configuration that the agent starts with has positive
  -- intervals for its tickers, an address for each of Consul, Nomad, HTTP and RPC, and its telemetry
  -- and notification parts.
  pub parse_flags-IsUsable :
      (hcl : Hcl H W) (fs : Files) (flags : AgentFlags) (config : Config H W)
      → parse_flags hcl fs (some flags) ≡ returned config
      → IsUsable config
  unfolding parse_flags and_then
  parse_flags-IsUsable hcl fs flags config h =
      let cli : Config H W = cli_config flags in
      elim (Bool-cases (flags.config_path == "")) [
        | inl e ↦
            subst IsUsable (returned-inj (merge start cli) config (ground (arith, h)))
              (merge-IsUsable start cli usable)
        | inr e ↦ go e (load_config hcl fs flags.config_path) refl
      ]
    where
      start : Config H W
      start = if flags.dev then dev_config else default_config

      usable : IsUsable start
      usable = start-IsUsable flags.dev

      go :
          (flags.config_path == "") ≡ false
          → (loaded : Outcome (Config H W)) → load_config hcl fs flags.config_path ≡ loaded
          → IsUsable config
      go e crashed k = absurd (ground (arith, h))
      go e failing k = absurd (ground (arith, h))
      go e (returned current) k =
          let cli : Config H W = cli_config flags in
          subst IsUsable (returned-inj (merge (merge start current) cli) config (ground (arith, h)))
            (merge-IsUsable (merge start current) cli (merge-IsUsable start current usable))

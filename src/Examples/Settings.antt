-- ===== src/Examples/Settings.antt =====
-- The configuration at concrete inputs: files that give the address of Consul.
use replicator.Base.{
  String, string_eq, true, false, some, none, [], ◌∷◌, ◌≡◌, refl, if◌then◌else◌, ◌==◌, ok,
}
use replicator.Base.Int.{ℤ, pos}
use replicator.Base.Dict.{erase}
use replicator.Config.{Config, Handles, merge}
use replicator.Config.Defaults.{default_config, empty_config}
use replicator.Config.Parse.{
  Hcl, and_then, of_result, object_list, parse_config_file, parse_config, parse_object,
  check_hcl_keys, check_items, optional_block,
}
use replicator.Config.Load.{
  Files, AgentFlags, load_file, load_files, load_config, cli_config, parse_flags,
}
use replicator.Config.Order.{merged, load_files-merge}
use replicator.Config.Loaded.{IsUsable, parse_flags-IsUsable}
use replicator.Examples.Concrete.{World}

abbrev pub handles : Handles
handles = record {
  ConsulClient = Unit {0};
  NomadClient = Unit {0};
  TcpAddr = String × ℤ;
  tcp_addr = λ ip port. (ip, port);
}

-- A file holds the address of Consul and nothing else.
abbrev pub hcl : Hcl handles World
hcl = record {
  Node = String;
  ObjectList = String;
  Interface = String;
  parse = λ text. ok text;
  shape = object_list;
  items = λ l. if l == "" then [] else (("consul" ∷ [], l) ∷ []);
  filter = λ name l. "";
  elem = λ l. l;
  decode_list = λ l. ok (("consul", l) ∷ []);
  decode_node = λ n. ok [];
  weak_decode =
      λ m config. ok (record config { consul = elim m [ [] ↦ "" | entry ∷ rest ↦ entry.1 ] });
  weak_decode_telemetry = λ m t. ok t;
  weak_decode_notification = λ m n. ok n;
}

abbrev pub files : Files
files = record {
  stat = λ path. ok (path == "/etc/replicator");
  open_path = λ path. ok (record {
    stat = ok true;
    batches =
        ok (
          record { name = "b.hcl"; is_dir = false } ∷ record { name = "notes"; is_dir = true } ∷ [])
        ∷ ok (record { name = "a.json"; is_dir = false } ∷ [])
        ∷ [];
  });
  clean = λ path. path;
  join = λ dir name. name;
  abs = λ path. ok path;
  read = λ path. ok (if path == "a.json" then "10.0.0.1:8500" else "10.0.0.2:8500");
}

load_files-merge_example :
    load_files hcl files (some default_config) ("a.json" ∷ "b.hcl" ∷ [])
    ≡ and_then
        (load_files hcl files none ("a.json" ∷ "b.hcl" ∷ []))
        (merged hcl files default_config)
load_files-merge_example = load_files-merge hcl files default_config ("a.json" ∷ "b.hcl" ∷ [])

abbrev pub no_flags : AgentFlags
no_flags = record {
  config_path = "";
  dev = false;
  bind_address = "";
  consul = "";
  consul_key_root = "";
  consul_token = "";
  log_level = "";
  nomad = "";
  nomad_token = "";
  nomad_tls_server_name = "";
  cluster_scaling_interval = pos 0;
  job_scaling_interval = pos 0;
  scaling_concurrency = pos 0;
  cluster_scaling_disable = false;
  job_scaling_disable = false;
  http_port = "";
  rpc_port = pos 0;
  statsd_address = "";
  cluster_identifier = "";
  pagerduty_service_key = "";
  opsgenie_api_key = "";
}

abbrev flags : AgentFlags
flags = record no_flags { config_path = "/etc/replicator/a.json"; job_scaling_interval = pos 30 }

abbrev started : Config handles World
started =
    merge (merge default_config (record empty_config { consul = "10.0.0.2:8500" }))
      (cli_config flags)

parse_flags-IsUsable_example : IsUsable started
unfolding parse_flags load_config and_then of_result string_eq load_file parse_config_file
    parse_config parse_object check_hcl_keys check_items optional_block empty_config erase
parse_flags-IsUsable_example = parse_flags-IsUsable hcl files flags started refl

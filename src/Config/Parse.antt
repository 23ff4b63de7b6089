-- ===== src/Config/Parse.antt =====
-- command/base/config_parse.go: a configuration file. The parser of HCL, `mapstructure` and the
-- reading of files are parameters.
use replicator.Base.{
  String, Option, some, List, [], ◌∷◌, if◌then◌else◌, string_eq, ltb, length, contains, Result, ok,
  err,
}
use replicator.Base.Dict.{Dict, erase}
use replicator.Config.{Config, Handles, Telemetry, Notification}
use replicator.Config.Defaults.{empty_config, empty_telemetry, empty_notification}

-- How a call ends: with a panic, an error or a value.
pub data Outcome (A : Type 0) : Type 0 where
  crashed failing : Outcome A
  returned : A → Outcome A

-- The type switch over the nodes of a syntax tree; `L` is `ast.ObjectList`.
pub data Shape (L : Type 0) : Type 0 where
  object_list object_type : L → Shape L
  other : Shape L

pub record Hcl (H : Handles) (W : Type 0) : Type 1 where
  pub Node : Type 0
  pub ObjectList : Type 0
  pub Interface : Type 0
  -- `hcl.Parse` and the node of its answer.
  pub parse : String → Result Node
  pub shape : Node → Shape ObjectList
  -- The keys and the value of each item.
  pub items : ObjectList → List (List String × Node)
  pub filter : String → ObjectList → ObjectList
  pub elem : ObjectList → ObjectList
  -- `hcl.DecodeObject`
  pub decode_list : ObjectList → Result (Dict String Interface)
  pub decode_node : Node → Result (Dict String Interface)
  -- `mapstructure.WeakDecode`
  pub weak_decode : Dict String Interface → Config H W → Result (Config H W)
  pub weak_decode_telemetry : Dict String Interface → Telemetry → Result Telemetry
  pub weak_decode_notification : Dict String Interface → Notification W → Result (Notification W)

abbrev pub config_keys : List String
config_keys =
    "bind_address" ∷ "http_port" ∷ "rpc_port" ∷ "nomad" ∷ "nomad_token" ∷ "nomad_tls_server_name"
    ∷ "consul" ∷ "consul_key_root" ∷ "consul_token" ∷ "log_level" ∷ "job_scaling_interval"
    ∷ "cluster_scaling_interval" ∷ "telemetry" ∷ "notification" ∷ "cluster_scaling_disable"
    ∷ "job_scaling_disable" ∷ "scaling_concurrency" ∷ []

abbrev pub telemetry_keys : List String
telemetry_keys = "statsd_address" ∷ []

abbrev pub notification_keys : List String
notification_keys = "cluster_identifier" ∷ "pagerduty_service_key" ∷ "opsgenie_service_key" ∷ []

-- What follows a call that succeeds.
unfoldable pub and_then : {A B : Type 0} → Outcome A → (A → Outcome B) → Outcome B
and_then crashed f = crashed
and_then failing f = failing
and_then (returned a) f = f a

unfoldable pub of_result : {A : Type 0} → Result A → Outcome A
of_result err = failing
of_result (ok a) = returned a

-- The loop of `checkHCLKeys`: every item is read before the errors are returned, and the first key of
-- an item without keys is a panic.
unfoldable pub check_items :
    {N : Type 0} → List String → List (List String × N) → Outcome (Unit {0})
check_items valid [] = returned tt
check_items valid (([], _) ∷ items) = crashed
check_items valid ((key ∷ _, _) ∷ items) =
    let rest = check_items valid items in
    if contains valid key then rest else elim rest [ crashed ↦ crashed | _ ↦ failing ]

module _ {H : Handles} {W : Type 0} (hcl : Hcl H W) where
  -- `checkHCLKeys`
  unfoldable pub check_hcl_keys : Shape hcl.ObjectList → List String → Outcome (Unit {0})
  unfolding check_items
  check_hcl_keys (object_list list) valid = check_items valid (hcl.items list)
  check_hcl_keys (object_type list) valid = check_items valid (hcl.items list)
  check_hcl_keys other valid = failing

  -- `list.Items[0].Val` of the one block that is allowed.
  unfoldable pub only_block : hcl.ObjectList → Outcome hcl.Node
  only_block list = elim (hcl.items (hcl.elem list)) [
    | [] ↦ crashed
    | item ∷ items ↦ if ltb 0 (length items) then failing else returned item.1
  ]

  -- `parseTelemetry`
  unfoldable pub parse_telemetry : hcl.ObjectList → Outcome Telemetry
  unfolding only_block check_hcl_keys and_then of_result
  parse_telemetry list = and_then (only_block list) (λ node.
      and_then (check_hcl_keys (hcl.shape node) telemetry_keys) (λ valid.
        and_then (of_result (hcl.decode_node node))
          (λ m. of_result (hcl.weak_decode_telemetry m empty_telemetry))))

  -- `parseNotification`
  unfoldable pub parse_notification : hcl.ObjectList → Outcome (Notification W)
  unfolding only_block check_hcl_keys and_then of_result
  parse_notification list = and_then (only_block list) (λ node.
      and_then (check_hcl_keys (hcl.shape node) notification_keys) (λ valid.
        and_then (of_result (hcl.decode_node node))
          (λ m. of_result (hcl.weak_decode_notification m empty_notification))))

  -- The block of a name, where there is one.
  unfoldable pub optional_block :
      {A : Type 0}
      → String
      → (hcl.ObjectList → Outcome A)
      → hcl.ObjectList
      → Option A
      → Outcome (Option A)
  unfolding and_then
  optional_block name parse list old =
      let o = hcl.filter name list in
      if ltb 0 (length (hcl.items o))
      then and_then (parse o) (λ a. returned (some a))
      else returned old

  -- `parseConfig` on an empty configuration.
  unfoldable pub parse_object : hcl.ObjectList → Outcome (Config H W)
  unfolding optional_block parse_telemetry parse_notification
  parse_object list = and_then (check_hcl_keys (object_list list) config_keys) (λ valid.
      and_then (of_result (hcl.decode_list list)) (λ m.
        and_then
          (of_result (hcl.weak_decode (erase "notification" (erase "telemetry" m)) empty_config))
          (λ config.
            and_then (optional_block "telemetry" parse_telemetry list config.telemetry) (λ t.
              and_then (optional_block "notification" parse_notification list config.notification)
                (λ n. returned (record config { telemetry = t; notification = n }))))))

  -- `ParseConfig` on the text of a file.
  unfoldable pub parse_config : String → Outcome (Config H W)
  unfolding parse_object
  parse_config text = and_then (of_result (hcl.parse text)) (λ node. elim (hcl.shape node) [
    | object_list list ↦ parse_object list
    | object_type list ↦ failing
    | other ↦ failing
  ])

  -- `ParseConfigFile`, with `filepath.Abs` and the reading of a file.
  unfoldable pub parse_config_file :
      (String → Result String) → (String → Result String) → String → Outcome (Config H W)
  unfolding parse_config
  parse_config_file abs read path =
      and_then (of_result (abs path))
        (λ absolute. and_then (of_result (read absolute)) (λ text. parse_config text))

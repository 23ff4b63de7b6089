-- ===== src/Config/Laws.antt =====
-- Merging configurations in any grouping.
use replicator.Base.{String, Bool, true, false, Option, none, some, ◌≡◌, refl, ap, arith}
use replicator.Base.Int.{ℤ}
use replicator.Config.{
  Config, Handles, Telemetry, Notification, merge, merge_string, merge_int, merge_bool,
  merge_pointer, merge_telemetry, merge_notification,
}

merge_string_assoc :
    (a b c : String) → merge_string (merge_string a b) c ≡ merge_string a (merge_string b c)
unfolding merge_string
merge_string_assoc a b c = ground arith

merge_int_assoc : (a b c : ℤ) → merge_int (merge_int a b) c ≡ merge_int a (merge_int b c)
unfolding merge_int
merge_int_assoc a b c = ground arith

merge_bool_assoc : (a b c : Bool) → merge_bool (merge_bool a b) c ≡ merge_bool a (merge_bool b c)
unfolding merge_bool
merge_bool_assoc a b true = refl
merge_bool_assoc a b false = refl

merge_pointer_assoc :
    {A : Type 0} (m : A → A → A)
    → ((a b c : A) → m (m a b) c ≡ m a (m b c))
    → (a b c : Option A)
    → merge_pointer m (merge_pointer m a b) c ≡ merge_pointer m a (merge_pointer m b c)
unfolding merge_pointer
merge_pointer_assoc m assoc a b none = refl
merge_pointer_assoc m assoc a none (some c) = refl
merge_pointer_assoc m assoc none (some b) (some c) = refl
merge_pointer_assoc m assoc (some a) (some b) (some c) = ap some (assoc a b c)

merge_telemetry_assoc :
    (a b c : Telemetry)
    → merge_telemetry (merge_telemetry a b) c ≡ merge_telemetry a (merge_telemetry b c)
unfolding merge_telemetry
merge_telemetry_assoc a b c = λ i. record {
  statsd_address = merge_string_assoc a.statsd_address b.statsd_address c.statsd_address i;
}

module _ {W : Type 0} where
  merge_notification_assoc :
      (a b c : Notification W)
      → merge_notification (merge_notification a b) c
        ≡ merge_notification a (merge_notification b c)
  unfolding merge_notification
  merge_notification_assoc a b c = λ i. record {
    cluster_identifier =
        merge_string_assoc a.cluster_identifier b.cluster_identifier c.cluster_identifier i;
    pagerduty_service_key =
        merge_string_assoc a.pagerduty_service_key b.pagerduty_service_key c.pagerduty_service_key
          i;
    opsgenie_api_key =
        merge_string_assoc a.opsgenie_api_key b.opsgenie_api_key c.opsgenie_api_key i;
    notifiers = a.notifiers;
  }

  -- Merging is associative: a configuration does not depend on how the files, the defaults and the
  -- flags it is merged from are grouped, only on their order.
  pub merge_assoc : {H : Handles} (a b c : Config H W) → merge (merge a b) c ≡ merge a (merge b c)
  unfolding merge
  merge_assoc a b c = λ i. record a {
    bind_address = merge_string_assoc a.bind_address b.bind_address c.bind_address i;
    nomad = merge_string_assoc a.nomad b.nomad c.nomad i;
    nomad_token = merge_string_assoc a.nomad_token b.nomad_token c.nomad_token i;
    nomad_tls_server_name =
        merge_string_assoc a.nomad_tls_server_name b.nomad_tls_server_name c.nomad_tls_server_name
          i;
    consul = merge_string_assoc a.consul b.consul c.consul i;
    consul_token = merge_string_assoc a.consul_token b.consul_token c.consul_token i;
    consul_key_root = merge_string_assoc a.consul_key_root b.consul_key_root c.consul_key_root i;
    log_level = merge_string_assoc a.log_level b.log_level c.log_level i;
    cluster_scaling_interval =
        merge_int_assoc a.cluster_scaling_interval b.cluster_scaling_interval
          c.cluster_scaling_interval i;
    job_scaling_interval =
        merge_int_assoc a.job_scaling_interval b.job_scaling_interval c.job_scaling_interval i;
    cluster_scaling_disable =
        merge_bool_assoc a.cluster_scaling_disable b.cluster_scaling_disable
          c.cluster_scaling_disable i;
    job_scaling_disable =
        merge_bool_assoc a.job_scaling_disable b.job_scaling_disable c.job_scaling_disable i;
    http_port = merge_string_assoc a.http_port b.http_port c.http_port i;
    rpc_port = merge_int_assoc a.rpc_port b.rpc_port c.rpc_port i;
    scaling_concurrency =
        merge_int_assoc a.scaling_concurrency b.scaling_concurrency c.scaling_concurrency i;
    telemetry =
        merge_pointer_assoc merge_telemetry merge_telemetry_assoc a.telemetry b.telemetry
          c.telemetry i;
    notification =
        merge_pointer_assoc merge_notification merge_notification_assoc a.notification
          b.notification c.notification i;
  }

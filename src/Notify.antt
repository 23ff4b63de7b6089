-- ===== src/Notify.antt =====
-- notifier/notifier.go, pagerduty.go and opsgenie.go: the notification backends. The requests to the two
-- services are parameters; logging is left out.
use replicator.Base.{
  String, ◌<>◌, none, some, [], ◌∷◌, if◌then◌else◌, ◌==◌, string_eq, Result, ok, err,
}
use replicator.Base.Dict.{Dict, lookup}
use replicator.World.{Notifier, FailureMessage}

-- `pagerduty.Event`
pub record PagerDutyEvent : Type 0 where
  pub service_key : String
  pub type : String
  pub description : String
  pub details : FailureMessage

-- `alerts.CreateAlertRequest`, with the key that the client was given.
pub record OpsGenieAlert : Type 0 where
  pub api_key : String
  pub message : String
  pub alias : String
  pub description : String
  pub details : Dict String String
  pub entity : String
  pub source : String

-- The services; what they answer is only logged.
pub record Services (W : Type 0) : Type 0 where
  pub create_event : PagerDutyEvent → W → W
  pub create_alert : OpsGenieAlert → W → W

-- The description of a message.
unfoldable pub describe : FailureMessage → String
describe message =
    message.alert_uid
    <> (" "
        <> (message.cluster_identifier
            <> ("_" <> (message.reason <> ("_" <> message.resource_id)))))

-- `p.config[…]`, which is empty where the key is absent.
abbrev pub setting : String → Dict String String → String
setting key config = elim (lookup key config) [ none ↦ "" | some v ↦ v ]

-- `SendNotification` of the PagerDuty backend.
unfoldable pub pagerduty_event : Dict String String → FailureMessage → PagerDutyEvent
unfolding describe
pagerduty_event config message = record {
  service_key = setting "PagerDutyServiceKey" config;
  type = "trigger";
  description = describe message;
  details = message;
}

-- `SendNotification` of the OpsGenie backend.
unfoldable pub opsgenie_alert : Dict String String → FailureMessage → OpsGenieAlert
unfolding describe
opsgenie_alert config message = record {
  api_key = setting "OpsGenieAPIKey" config;
  message = "replicator notification";
  alias = message.alert_uid;
  description = describe message;
  details =
      ("alert_uid", message.alert_uid)
      ∷ ("cluster_identifier", message.cluster_identifier)
      ∷ ("reason", message.reason)
      ∷ ("resource_id", message.resource_id)
      ∷ [];
  entity = message.resource_id;
  source = "replicator";
}

module _ {W : Type 0} (services : Services W) where
  -- `NewPagerDutyProvider`
  unfoldable pub new_pagerduty_provider : Dict String String → Notifier W
  unfolding pagerduty_event
  new_pagerduty_provider config = record {
    provider = "pagerduty";
    send_notification = λ message. services.create_event (pagerduty_event config message);
  }

  -- `NewOpsGenieProvider`
  unfoldable pub new_opsgenie_provider : Dict String String → Notifier W
  unfolding opsgenie_alert
  new_opsgenie_provider config = record {
    provider = "opsgenie";
    send_notification = λ message. services.create_alert (opsgenie_alert config message);
  }

  -- `NewProvider`
  unfoldable pub new_provider : String → Dict String String → Result (Notifier W)
  unfolding new_pagerduty_provider new_opsgenie_provider
  new_provider name config =
      if name == "pagerduty"
      then ok (new_pagerduty_provider config)
      else if name == "opsgenie"
      then ok (new_opsgenie_provider config)
      else err

-- ===== src/World.antt =====
-- What the program calls and does not implement: clock, Consul's key-value store, JSON, notifiers.
-- Each call takes the outside world `W` and returns it changed. `B` is the type of the bytes that
-- encode an object.
use replicator.Base.{String, Bool, M}
use replicator.Structs.{ScalingState, Time}

-- The answer of `kv.Get`: an error, no such key, or the stored bytes.
pub data KvReply (B : Type 0) : Type 0 where
  failed absent : KvReply B
  present : B → KvReply B

-- notifier.FailureMessage.
pub record FailureMessage : Type 0 where
  pub alert_uid : String
  pub cluster_identifier : String
  pub reason : String
  pub resource_id : String
  pub resource_type : String
  pub state_path : String

pub record Consul (W B : Type 0) : Type 0 where
  -- `time.Now`.
  pub now : M W Time
  pub kv_get : String → M W (KvReply B)
  -- `true` is an error.
  pub kv_put : String → B → M W Bool
  pub marshal : ScalingState → B
  -- The object as decoding leaves it, and whether decoding failed.
  pub unmarshal : B → ScalingState → ScalingState × Bool

-- A notification backend, by its name and what sending to it does.
pub record Notifier (W : Type 0) : Type 0 where
  pub provider : String
  pub send_notification : FailureMessage → W → W

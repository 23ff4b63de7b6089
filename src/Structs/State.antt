-- ===== src/Structs/State.antt =====
-- replicator/structs/state.go, and the scaling directions of replicator/structs/nomad.go.
use replicator.Base.{ℕ, String, Bool, false, List, []}
use replicator.Base.Int.{ℤ, pos}

-- `time.Time` as nanoseconds after the zero time, whose number is 0.
abbrev pub Time : Type 0
Time = ℕ

abbrev pub second : ℕ
second = 1000000000

-- The strings "Out", "In" and "None", and the empty string of a new object.
pub data Direction : Type 0 where
  out inward none_wanted unset : Direction

pub record ScalingState : Type 0 where
  pub eligible_nodes : List String
  pub failsafe_admin : Bool
  pub failsafe_mode : Bool
  pub failure_count : ℤ
  pub last_notification_event : Time
  pub last_scaling_event : Time
  pub last_updated : Time
  pub resource_name : String
  pub resource_type : String
  pub scale_in_requests : ℤ
  pub scale_out_requests : ℤ
  pub scaling_direction : Direction
  pub state_path : String

-- `&structs.ScalingState{ResourceName: …, ResourceType: …, StatePath: …}`.
unfoldable pub new_scaling_state : String → String → String → ScalingState
new_scaling_state name type path = record {
  eligible_nodes = [];
  failsafe_admin = false;
  failsafe_mode = false;
  failure_count = pos 0;
  last_notification_event = 0;
  last_scaling_event = 0;
  last_updated = 0;
  resource_name = name;
  resource_type = type;
  scale_in_requests = pos 0;
  scale_out_requests = pos 0;
  scaling_direction = Direction.unset;
  state_path = path;
}

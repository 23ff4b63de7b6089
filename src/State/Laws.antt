-- ===== src/State/Laws.antt =====
-- What a state persisted in Consul is when it is read back.
use replicator.Base.{String, Bool, false, ◌≡◌, arith}
use replicator.Structs.{ScalingState}
use replicator.World.{Consul, present}
use replicator.State.{persist_state, read_state}

-- What Consul and `encoding/json` document: a written key reads back, and a decoded object has every
-- field of the encoded one but `ScalingDirection`, which is tagged `json:"-"`.
pub record IsFaithful {W B : Type 0} (c : Consul W B) : Type 0 where
  pub get-put :
      (k : String) (v : B) (w : W)
      → (c.kv_put k v w).1 ≡ false
      → (c.kv_get k (c.kv_put k v w).0).1 ≡ present v
  pub unmarshal-marshal :
      (s t : ScalingState)
      → c.unmarshal (c.marshal s) t ≡ (record s { scaling_direction = t.scaling_direction }, false)

-- Over a store that reads back what was written, a state that `PersistState` wrote without an error
-- is what `ReadState` at the same path returns, with the new time stamp and with the reader's own
-- scaling direction, whether or not initialization is enabled.
pub read_state-persist_state :
    {W B : Type 0} (c : Consul W B) (s t : ScalingState) (force : Bool) (w : W)
    → IsFaithful c
    → t.state_path ≡ s.state_path
    → (persist_state c s w).1.1 ≡ false
    → (read_state c t force (persist_state c s w).0).1
      ≡ record s { last_updated = (c.now w).1; scaling_direction = t.scaling_direction }
unfolding persist_state read_state
read_state-persist_state c s t force w law same written =
    let stamped : ScalingState = record s { last_updated = (c.now w).1 } in
    ground (
      arith,
      law.get-put s.state_path (c.marshal stamped) (c.now w).0 written,
      law.unmarshal-marshal stamped t,
    )

-- ===== src/State.antt =====
-- client/state.go: scaling state kept in Consul.
pub mod Laws
use replicator.Base.{Bool, if◌then◌else◌, M, pure, ◌>>=◌, ◌>>◌, ignore}
use replicator.Structs.{ScalingState}
use replicator.World.{Consul, KvReply, failed, absent, present}

module _ {W B : Type 0} (c : Consul W B) where
  -- `PersistState`: the state with its new time stamp, and whether the write failed.
  -- `json.Marshal` cannot fail on this struct, so that branch is left out.
  unfoldable pub persist_state : ScalingState → M W (ScalingState × Bool)
  persist_state state = do
    time ← c.now
    let state' = record state { last_updated = time }
    refused ← c.kv_put state.state_path (c.marshal state')
    pure (state', refused)

  unfoldable pub initialize_state : Bool → ScalingState → M W ScalingState
  unfolding persist_state
  initialize_state force state =
      if force then (λ w. let r = persist_state state w in (r.0, r.1.0)) else pure state

  -- `ReadState`. After a decoding error the object stays as decoding left it.
  unfoldable pub read_state : ScalingState → Bool → M W ScalingState
  unfolding initialize_state
  read_state state force w =
      let (w', reply) = c.kv_get state.state_path w in
      elim reply [
        | failed ↦ (w', state)
        | absent ↦ initialize_state force state w'
        | present bytes ↦ (w', (c.unmarshal bytes state).0)
      ]

-- ===== src/Failsafe/Kept.antt =====
-- What the circuit breaker and the stored state leave of the outside world.
use replicator.Base.{String, Bool, true, false, List, [], ◌∷◌, ◌≡◌, refl, if_property, All, M}
use replicator.Base.Int.{ℤ, pos, lez}
use replicator.Structs.{ScalingState}
use replicator.World.{Consul, Notifier, FailureMessage, KvReply, failed, absent, present}
use replicator.State.{persist_state, read_state, initialize_state}
use replicator.Failsafe.{
  send_all, send_failsafe_notification, set_failsafe_mode, failsafe_check, prepare, notification,
}

-- What a notification backend keeps.
abbrev pub IsSentBy : {W : Type 0} → (W → Type 0) → Notifier W → Type 0
IsSentBy {W} P n = (message : FailureMessage) (w : W) → P w → P (n.send_notification message w)

-- A property of the world that the clock, Consul and the notification backends keep.
pub record IsStable {W B : Type 0} (c : Consul W B) (notifiers : List (Notifier W)) (P : W → Type 0)
    : Type 0 where
  pub now : (w : W) → P w → P (c.now w).0
  pub kv_get : (key : String) (w : W) → P w → P (c.kv_get key w).0
  pub kv_put : (key : String) (bytes : B) (w : W) → P w → P (c.kv_put key bytes w).0
  pub send : All (IsSentBy P) notifiers

send_all_keeps :
    {W : Type 0} (P : W → Type 0) (ns : List (Notifier W)) (message : FailureMessage) (w : W)
    → All (IsSentBy P) ns
    → P w
    → P (send_all ns message w)
unfolding send_all
send_all_keeps P [] message w sent h = h
send_all_keeps P (n ∷ ns) message w sent h =
    send_all_keeps P ns message (n.send_notification message w) sent.1 (sent.0 message w h)

module _ {W B : Type 0} (c : Consul W B) (P : W → Type 0) {notifiers : List (Notifier W)}
    (stable : IsStable c notifiers P) where
  pub persist_state_keeps : (s : ScalingState) (w : W) → P w → P (persist_state c s w).0
  unfolding persist_state
  persist_state_keeps s w h = stable.kv_put _ _ _ (stable.now w h)

  pub read_state_keeps :
      (s : ScalingState) (force : Bool) (w : W) → P w → P (read_state c s force w).0
  unfolding read_state initialize_state
  read_state_keeps s force w h = go (c.kv_get s.state_path w).1 refl
    where
      read : P (c.kv_get s.state_path w).0
      read = stable.kv_get s.state_path w h

      go : (r : KvReply B) → (c.kv_get s.state_path w).1 ≡ r → P (read_state c s force w).0
      go failed e = rw (e, read_state) read
      go absent e =
          rw (e, read_state)
            (if_property (λ (r : W → W × ScalingState). P (r (c.kv_get s.state_path w).0).0) force
              (λ forced. persist_state_keeps s (c.kv_get s.state_path w).0 read) (λ idle. read))
      go (present bytes) e = rw (e, read_state) read

  send_failsafe_notification_keeps :
      (message : FailureMessage) (s : ScalingState) (w : W)
      → P w
      → P (send_failsafe_notification c notifiers message s w).0
  unfolding send_failsafe_notification
  send_failsafe_notification_keeps message s w h = go notifiers stable.send
    where
      go :
          (ns : List (Notifier W))
          → All (IsSentBy P) ns
          → P (send_failsafe_notification c ns message s w).0
      go [] sent = h
      go (n ∷ ns) sent =
          let w' = send_all (n ∷ ns) (notification message s) w in
          persist_state_keeps (record s { last_notification_event = (c.now w').1 }) (c.now w').0
            (stable.now w' (send_all_keeps P (n ∷ ns) (notification message s) w sent h))

  set_failsafe_mode_keeps :
      (s : ScalingState) (enabled : Bool) (message : FailureMessage) (w : W)
      → P w
      → P (set_failsafe_mode c notifiers s enabled message w).0
  unfolding set_failsafe_mode
  set_failsafe_mode_keeps s true message w h =
      let r = prepare c notifiers true message s w in
      persist_state_keeps (record r.1 { failsafe_mode = true }) r.0
        (if_property (λ (r : M W ScalingState). P (r w).0) s.failsafe_mode (λ on. h)
          (λ off. send_failsafe_notification_keeps message s w h))
  set_failsafe_mode_keeps s false message w h =
      persist_state_keeps (record s { failure_count = pos 0; failsafe_mode = false }) w h

  pub failsafe_check_keeps :
      (s : ScalingState) (threshold : ℤ) (message : FailureMessage) (w : W)
      → P w
      → P (failsafe_check c notifiers s threshold message w).0
  unfolding failsafe_check
  failsafe_check_keeps s threshold message w h =
      if_property (λ (r : M W (ScalingState × Bool)). P (r w).0) s.failsafe_mode (λ on. h)
        (λ off.
          if_property (λ (r : M W (ScalingState × Bool)). P (r w).0) (lez threshold s.failure_count)
            (λ over. set_failsafe_mode_keeps s true message w h) (λ below. h))

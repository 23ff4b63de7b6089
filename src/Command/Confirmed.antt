-- ===== src/Command/Confirmed.antt =====
-- When the failsafe command writes, and what its writes mean for the copies of the program.
use mathlib.Core.Path.{subst}
use replicator.Base.{
  ℕ, String, Bool, true, false, not, ◌&&◌, ◌||◌, Option, none, some, List, ◌≡◌, ◌≢◌, ◌↔◌, refl, sym,
  ap, ◌∙◌, if_property, ◌==◌, string_eq, nat_eq, Result, ok, err, M, arith,
}
use replicator.Base.Int.{ℤ, pos, ◌<ℤ◌}
use replicator.Structs.{ScalingState, new_scaling_state}
use replicator.World.{Consul, Notifier, FailureMessage, KvReply, failed, absent, present}
use replicator.State.{read_state, persist_state, initialize_state}
use replicator.State.Laws.{IsFaithful, read_state-persist_state}
use replicator.Failsafe.{prepare, set_failsafe_mode, failsafe_check}
use replicator.Failsafe.Breaker.{failsafe_check_iff, prepare_path, set_failsafe_mode_mode}
use replicator.Command.{
  FailsafeFlags, judge_answer, admin_message, set_mode, confirm_mode, run_mode,
}

judge_answer_yes : (r : Result String) → judge_answer r ≡ none → r ≡ ok "y"
unfolding judge_answer
judge_answer_yes err h = absurd (ground arith)
judge_answer_yes (ok answer) h = ground (arith, h)

module _ {W B : Type 0} (c : Consul W B) (notifiers : List (Notifier W)) (ask : M W (Result String))
    (P : W → Type 0) (reads : (key : String) (w : W) → P w → P (c.kv_get key w).0)
    (asks : (w : W) → P w → P (ask w).0) where
  read_only_keeps : (s : ScalingState) (w : W) → P w → P (read_state c s false w).0
  unfolding read_state initialize_state
  read_only_keeps s w h = go (c.kv_get s.state_path w).1 refl
    where
      go : (r : KvReply B) → (c.kv_get s.state_path w).1 ≡ r → P (read_state c s false w).0
      go failed e = rw (e, read_state) (reads s.state_path w h)
      go absent e = rw (e, read_state) (reads s.state_path w h)
      go (present bytes) e = rw (e, read_state) (reads s.state_path w h)

  confirm_mode_keeps :
      (flags : FailsafeFlags) (s : ScalingState) (w : W)
      → flags.force ≡ false
      → ((w : W) → (ask w).1 ≢ ok "y")
      → P w
      → P (confirm_mode c notifiers ask flags s w).0
  unfolding confirm_mode
  confirm_mode_keeps flags s w gentle denied h = go (judge_answer (ask w).1) refl
    where
      go :
          (code : Option ℕ)
          → judge_answer (ask w).1 ≡ code
          → P (confirm_mode c notifiers ask flags s w).0
      go none e = absurd (denied w (judge_answer_yes (ask w).1 e))
      go (some code) e = rw (gentle, e, confirm_mode) (asks w h)

  -- Without the flag that skips the question, and unless the operator answers with an exact y, the
  -- command does nothing but read the state and ask: what these keep of the world, it keeps.
  pub run_mode_unconfirmed :
      (flags : FailsafeFlags) (w : W)
      → flags.force ≡ false
      → ((w : W) → (ask w).1 ≢ ok "y")
      → P w
      → P (run_mode c notifiers ask flags w).0
  unfolding run_mode
  run_mode_unconfirmed flags w gentle denied h =
      let read = read_state c (new_scaling_state "" "" flags.state_path) false w in
      let kept = read_only_keeps (new_scaling_state "" "" flags.state_path) w h in
      if_property (λ (r : W × ℕ). P r.0)
        (flags.enable && flags.disable || not flags.enable && not flags.disable) (λ usage. h)
        (λ chosen.
          if_property (λ (r : W × ℕ). P r.0) (read.1.last_updated == 0) (λ none. kept)
            (λ found.
              if_property (λ (r : W × ℕ). P r.0)
                (read.1.failsafe_mode && flags.enable || not read.1.failsafe_mode && flags.disable)
                (λ same. kept)
                (λ other. confirm_mode_keeps flags read.1 read.0 gentle denied kept)))

module _ {W B : Type 0} (c : Consul W B) (notifiers : List (Notifier W)) where
  set_failsafe_mode_path :
      (s : ScalingState) (enabled : Bool) (message : FailureMessage) (w : W)
      → (set_failsafe_mode c notifiers s enabled message w).1.0.state_path ≡ s.state_path
  unfolding set_failsafe_mode persist_state
  set_failsafe_mode_path s enabled message w = prepare_path c notifiers enabled message s w

  set_failsafe_mode_count :
      (s : ScalingState) (enabled : Bool) (message : FailureMessage) (w : W)
      → enabled ≡ false
      → (set_failsafe_mode c notifiers s enabled message w).1.0.failure_count ≡ pos 0
  unfolding set_failsafe_mode persist_state prepare
  set_failsafe_mode_count s true message w off = absurd (ground arith)
  set_failsafe_mode_count s false message w off = refl

  -- What a copy reads after the last write of the command succeeded.
  read_after :
      (s t : ScalingState) (force : Bool) (w : W)
      → IsFaithful c
      → t.state_path ≡ s.state_path
      → (persist_state c s w).1.1 ≡ false
      → let read = (read_state c t force (persist_state c s w).0).1 in
        (read.failsafe_mode ≡ s.failsafe_mode) × (read.failure_count ≡ s.failure_count)
  read_after s t force w law same written =
      let e = read_state-persist_state c s t force w law same written in
      (ap (λ r. r.failsafe_mode) e, ap (λ r. r.failure_count) e)

  permitted_after :
      (enable : Bool) (read : ScalingState) (threshold : ℤ) (message : FailureMessage) (w : W)
      → read.failsafe_mode ≡ enable
      → (enable ≡ false → read.failure_count ≡ pos 0)
      → ((failsafe_check c notifiers read threshold message w).1.1 ≡ true)
        ↔ ((enable ≡ false) × (pos 0 <ℤ threshold))
  permitted_after enable read threshold message w mode count =
      let check = failsafe_check_iff c notifiers read threshold message w in
      (
        λ h.
            let (off, below) = check.0 h in
            let disabled = sym mode ∙ off in
            (disabled, subst (λ n. n <ℤ threshold) (count disabled) below),
        λ (disabled, positive).
            check.1 (mode ∙ disabled, subst (λ n. n <ℤ threshold) (sym (count disabled)) positive),
      )

  -- Over a faithful store, once the command has written the mode without an error, every copy of the
  -- program that reads the state at that path and checks it may scale exactly if the mode was turned
  -- off and its threshold is positive: the failures counted before do not matter any more.
  pub set_mode-read_state :
      (enable force : Bool) (s t : ScalingState) (threshold : ℤ) (message : FailureMessage) (w : W)
      → IsFaithful c
      → t.state_path ≡ s.state_path
      → let r = set_mode c notifiers enable s w in
        r.1.2 ≡ false
        → let read = read_state c t force r.0 in
          ((failsafe_check c notifiers read.1 threshold message read.0).1.1 ≡ true)
          ↔ ((enable ≡ false) × (pos 0 <ℤ threshold))
  unfolding set_mode
  set_mode-read_state enable force s t threshold message w law same written =
      go (set_failsafe_mode c notifiers admin enable (admin_message s) w).1.1 refl
    where
      admin : ScalingState
      admin = record s { failsafe_admin = true }

      go :
          (refused : Bool)
          → (set_failsafe_mode c notifiers admin enable (admin_message s) w).1.1 ≡ refused
          → let read = read_state c t force (set_mode c notifiers enable s w).0 in
            ((failsafe_check c notifiers read.1 threshold message read.0).1.1 ≡ true)
            ↔ ((enable ≡ false) × (pos 0 <ℤ threshold))
      go true e = absurd (ground (arith, written))
      go false e =
          let r = set_failsafe_mode c notifiers admin enable (admin_message s) w in
          let read =
            read_after r.1.0 t force r.0 law
              (same ∙ sym (set_failsafe_mode_path admin enable (admin_message s) w))
              (ground (arith, written)) in
          rw (e, set_mode)
            (permitted_after enable _ threshold message _
              (read.0 ∙ set_failsafe_mode_mode c notifiers admin enable (admin_message s) w)
              (λ off. read.1 ∙ set_failsafe_mode_count admin enable (admin_message s) w off))

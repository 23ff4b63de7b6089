-- ===== src/Scaling/Tripped.antt =====
-- What `workerPoolScaling` does for a pool whose failsafe mode another copy has turned on.
use replicator.Base.{
  String, true, false, Bool, ◌≡◌, ◌↔◌, refl, sym, ap, ◌∙◌, some, List, arith, string_eq,
}
use mathlib.Core.Path.{subst}
use replicator.Base.Int.{pos, ◌<ℤ◌}
use replicator.Base.Dict.{lookup, insert}
use replicator.Floats.{Floats}
use replicator.Structs.{ScalingState, Direction, WorkerPool, NodeRegistry, new_scaling_state}
use replicator.World.{Consul, Notifier, FailureMessage, failed}
use replicator.State.{persist_state, read_state}
use replicator.State.Laws.{IsFaithful, read_state-persist_state}
use replicator.Failsafe.{prepare, set_failsafe_mode, failsafe_check}
use replicator.Failsafe.Breaker.{prepare_path, failsafe_check_iff}
use replicator.Capacity.{NomadCapacity}
use replicator.Scaling.{Machines, initial_state, failure_message, worker_pool_scaling}
use replicator.Scaling.Effects.{worker_pool_scaling_failsafe}

module _ {W B : Type 0} (c : Consul W B) where
  -- Reading a state that was persisted is one request to the store.
  read_state-persist_state_world :
      (s t : ScalingState) (force : Bool) (w : W)
      → IsFaithful c
      → t.state_path ≡ s.state_path
      → (persist_state c s w).1.1 ≡ false
      → (read_state c t force (persist_state c s w).0).0
        ≡ (c.kv_get s.state_path (persist_state c s w).0).0
  unfolding persist_state read_state
  read_state-persist_state_world s t force w law same written =
      let stamped : ScalingState = record s { last_updated = (c.now w).1 } in
      ground (arith, law.get-put s.state_path (c.marshal stamped) (c.now w).0 written)

module _ {W B : Type 0} (c : Consul W B) (notifiers : List (Notifier W)) where
  -- What is read after the failsafe mode was set without an error.
  read_state-set_failsafe_mode :
      (s t : ScalingState) (message : FailureMessage) (w : W)
      → IsFaithful c
      → t.state_path ≡ s.state_path
      → let r = set_failsafe_mode c notifiers s true message w in
        r.1.1 ≡ false
        → read_state c t true r.0 ≡ (
          (c.kv_get s.state_path r.0).0,
          record r.1.0 { scaling_direction = t.scaling_direction },
        )
  unfolding set_failsafe_mode persist_state
  read_state-set_failsafe_mode s t message w law same written =
      let p = prepare c notifiers true message s w in
      let u : ScalingState = record p.1 { failsafe_mode = true } in
      let path = prepare_path c notifiers true message s w in
      let world =
        read_state-persist_state_world c u t true p.0 law (same ∙ sym path) written
        ∙ ap (λ k. (c.kv_get k (persist_state c u p.0).0).0) path in
      let state = read_state-persist_state c u t true p.0 law (same ∙ sym path) written in
      λ i. (world i, state i)

  set_failsafe_mode-IsOn :
      (s : ScalingState) (message : FailureMessage) (w : W)
      → (set_failsafe_mode c notifiers s true message w).1.0.failsafe_mode ≡ true
  unfolding set_failsafe_mode persist_state
  set_failsafe_mode-IsOn s message w = refl

module _ {W B F : Type 0} (c : Consul W B) (notifiers : List (Notifier W)) (fl : Floats F)
    (n : NomadCapacity W) (m : Machines W) (key_root : String) where
  -- Over a faithful store, once a copy of the program or the command has turned on the failsafe mode
  -- in the state of a pool and persisted that without an error, the next `workerPoolScaling` of the
  -- pool by any copy makes one request to the store and no other call: the pool is neither evaluated
  -- nor scaled, and all that changes in the registry is that the pool has the persisted state.
  pub worker_pool_scaling-set_failsafe_mode :
      (jobs : List String) (name : String) (pool : WorkerPool) (registry : NodeRegistry)
      (s : ScalingState) (message : FailureMessage) (w : W)
      → IsFaithful c
      → lookup name registry.worker_pools ≡ some pool
      → (initial_state key_root pool).state_path ≡ s.state_path
      → let (w1, (set, refused)) = set_failsafe_mode c notifiers s true message w in
        refused ≡ false
        → worker_pool_scaling c notifiers fl n m key_root jobs name registry w1 ≡ (
          (c.kv_get s.state_path w1).0,
          some (record registry {
            worker_pools =
                insert name
                  (record pool {
                    state = some (record set { scaling_direction = Direction.unset });
                  })
                  registry.worker_pools;
          }),
        )
  unfolding initial_state new_scaling_state
  worker_pool_scaling-set_failsafe_mode jobs name pool registry s message w law here same written =
      let r = set_failsafe_mode c notifiers s true message w in
      let read =
        read_state-set_failsafe_mode c notifiers s (initial_state key_root pool) message w law same
          written in
      let on =
        ap (λ (v : W × ScalingState). v.1.failsafe_mode) read
        ∙ set_failsafe_mode-IsOn c notifiers s message w in
      worker_pool_scaling_failsafe c notifiers fl n m key_root jobs name pool registry r.0 here on
      ∙ ap
          (λ (v : W × ScalingState). (
            v.0,
            some (record registry {
              worker_pools = insert name (record pool { state = some v.1 }) registry.worker_pools;
            }),
          ))
          read

module _ {W B : Type 0} (c : Consul W B) (notifiers : List (Notifier W)) (key_root : String) where
  -- Where Consul cannot be read, the circuit breaker of `workerPoolScaling` permits scaling exactly
  -- if the retry threshold of the pool is positive, whatever failsafe mode and failures are stored.
  pub failsafe_check_unread :
      (pool : WorkerPool) (w : W)
      → (c.kv_get (initial_state key_root pool).state_path w).1 ≡ failed
      → let (w1, s) = read_state c (initial_state key_root pool) true w in
        ((failsafe_check c notifiers s pool.retry_threshold (failure_message pool) w1).1.1 ≡ true)
        ↔ (pos 0 <ℤ pool.retry_threshold)
  unfolding read_state initial_state new_scaling_state
  failsafe_check_unread pool w unread =
      let (w1, s) = read_state c (initial_state key_root pool) true w in
      let fresh : s ≡ initial_state key_root pool = rw (unread, read_state) refl in
      let check =
        failsafe_check_iff c notifiers (initial_state key_root pool) pool.retry_threshold
          (failure_message pool) w1 in
      subst
        (λ (u : ScalingState).
          ((failsafe_check c notifiers u pool.retry_threshold (failure_message pool) w1).1.1 ≡ true)
          ↔ (pos 0 <ℤ pool.retry_threshold))
        (sym fresh) (λ h. (check.0 h).1, λ positive. check.1 (refl, positive))

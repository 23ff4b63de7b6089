-- ===== src/Scaling/Requests.antt =====
-- How many requests in a row `checkPoolScalingThreshold` asks for.
use replicator.Base.{
  ℕ, zero, suc, ◌<◌, String, false, ◌≡◌, refl, ◌⊎◌, arith, if◌then◌else◌, ◌∙◌, ◌==◌, nat_eq, M,
}
use replicator.Base.Int.{ℤ, pos}
use replicator.Base.Int.Exact.{add_int-pos}
use replicator.Structs.{ScalingState, Direction, inward, out, WorkerPool}
use replicator.World.{Consul}
use replicator.State.{persist_state}
use replicator.Scaling.{count_request, check_pool_scaling_threshold}

-- The requests that are counted for a direction.
abbrev pub requests : Direction → ScalingState → ℤ
requests inward s = s.scale_in_requests
requests out s = s.scale_out_requests
requests _ s = pos 0

count_request_lem :
    (d : Direction) (threshold : ℤ) (s : ScalingState) (k n : ℕ)
    → (d ≡ inward) ⊎ (d ≡ out)
    → s.scaling_direction ≡ d
    → requests d s ≡ pos k
    → threshold ≡ pos n
    → k < 9223372036854775807
    → let r = count_request threshold s in
      (r.1 ≡ (suc k == n))
      × (r.0.scaling_direction ≡ d)
      × (requests d r.0 ≡ pos (if suc k == n then 0 else suc k))
unfolding count_request
count_request_lem inward threshold s k n way e h t b = ground (arith, add_int-pos k 1 (omega arith))
count_request_lem out threshold s k n way e h t b = ground (arith, add_int-pos k 1 (omega arith))
count_request_lem Direction.none_wanted threshold s k n way e h t b = ground arith
count_request_lem Direction.unset threshold s k n way e h t b = ground arith

module _ {W B : Type 0} (c : Consul W B) (pool : WorkerPool) where
  -- World and state after some checks.
  pub after : ℕ → ScalingState → M W ScalingState
  after zero s w = (w, s)
  after (suc k) s w =
      let r = after k s w in
      (
        (check_pool_scaling_threshold c pool r.1 r.0).0,
        (check_pool_scaling_threshold c pool r.1 r.0).1.0,
      )

  check_persisted :
      (s : ScalingState) (w : W)
      → ((key : String) (v : B) (w : W) → (c.kv_put key v w).1 ≡ false)
      → let r = (check_pool_scaling_threshold c pool s w).1 in
        let counted = count_request pool.scaling_threshold s in
        (r.1 ≡ counted.1)
        × (r.0.scaling_direction ≡ counted.0.scaling_direction)
        × ((d : Direction) → requests d r.0 ≡ requests d counted.0)
  unfolding check_pool_scaling_threshold persist_state
  check_persisted s w accepts = (rw (accepts _ _ _) refl, refl, same)
    where
      same :
          (d : Direction)
          → requests d (check_pool_scaling_threshold c pool s w).1.0
            ≡ requests d (count_request pool.scaling_threshold s).0
      same inward = refl
      same out = refl
      same Direction.none_wanted = refl
      same Direction.unset = refl

  -- A state in which `k` requests in the direction have been counted.
  abbrev HasCounted : Direction → ℕ → ScalingState → Type 0
  HasCounted d k s = (s.scaling_direction ≡ d) × (requests d s ≡ pos k)

  one_check :
      (d : Direction) (s : ScalingState) (w : W) (k n : ℕ)
      → ((key : String) (v : B) (w : W) → (c.kv_put key v w).1 ≡ false)
      → (d ≡ inward) ⊎ (d ≡ out)
      → HasCounted d k s
      → pool.scaling_threshold ≡ pos n
      → k < 9223372036854775807
      → let r = (check_pool_scaling_threshold c pool s w).1 in
        (r.1 ≡ (suc k == n)) × HasCounted d (if suc k == n then 0 else suc k) r.0
  one_check d s w k n accepts way (e, h) t b =
      let (answer, direction, count) = check_persisted s w accepts in
      let (answer', direction', count') =
        count_request_lem d pool.scaling_threshold s k n way e h t b in
      (answer ∙ answer', (direction ∙ direction', count d ∙ count'))

  after-HasCounted :
      (d : Direction) (s : ScalingState) (w : W) (n k : ℕ)
      → ((key : String) (v : B) (w : W) → (c.kv_put key v w).1 ≡ false)
      → (d ≡ inward) ⊎ (d ≡ out)
      → HasCounted d 0 s
      → pool.scaling_threshold ≡ pos n
      → n < 9223372036854775808
      → k < n
      → HasCounted d k (after k s w).1
  unfolding after
  after-HasCounted d s w n zero accepts way start t b h = start
  after-HasCounted d s w n (suc k) accepts way start t b h =
      let before = after-HasCounted d s w n k accepts way start t b (omega arith) in
      let r = after k s w in
      let (answer, counted) = one_check d r.1 r.0 k n accepts way before t (omega arith) in
      (counted.0, counted.1 ∙ ground arith)

  -- From a state that wants to scale in or out and has counted no request in that direction, over a
  -- store that accepts every write, the check number `k + 1` permits scaling exactly if `k + 1` is
  -- the threshold of the pool, for every check up to the threshold, which 64 bits hold; the request count after it is
  -- `k + 1`, or 0 when it permits.
  pub check_pool_scaling_threshold-after :
      (d : Direction) (s : ScalingState) (w : W) (n k : ℕ)
      → ((key : String) (v : B) (w : W) → (c.kv_put key v w).1 ≡ false)
      → (d ≡ inward) ⊎ (d ≡ out)
      → s.scaling_direction ≡ d
      → requests d s ≡ pos 0
      → pool.scaling_threshold ≡ pos n
      → n < 9223372036854775808
      → k < n
      → let r = after k s w in
        let r' = (check_pool_scaling_threshold c pool r.1 r.0).1 in
        (r'.1 ≡ (suc k == n)) × (requests d r'.0 ≡ pos (if suc k == n then 0 else suc k))
  check_pool_scaling_threshold-after d s w n k accepts way e start t b h =
      let r = after k s w in
      let (answer, counted) =
        one_check d r.1 r.0 k n accepts way
          (after-HasCounted d s w n k accepts way (e, start) t b h) t (omega arith) in
      (answer, counted.1)

-- ===== src/Aws/Rounds.antt =====
-- How often `verifyScaledNode` tries, and what it leaves.
use replicator.Base.{
  ℕ, zero, suc, ◌+◌, ◌≤◌, ◌<◌, Bool, true, false, ◌≡◌, refl, Option, none, some, arith, ◌∙◌, ap,
  Bool-cases, Option-cases, Result-cases, inl, inr,
}
use replicator.Base.Int.{ℤ, pos, lez, add_int}
use replicator.Base.Int.Exact.{add_int-pos}
use replicator.Structs.{WorkerPool, ScalingState}
use replicator.World.{Consul}
use replicator.State.{persist_state}
use replicator.Aws.{AwsApi, Patience, get_most_recent_instance, find_node_by_address}
use replicator.Aws.Provider.{
  Verified, crashed, exhausted, verified, failed_event_cleanup, count_failure, record_success,
  verify_round, verify_scaled_node,
}

-- A round ends with no failure counted, or with one more.
abbrev Rounds : ℤ → Option (ScalingState × Bool) → Type 0
Rounds count none = Unit {0}
Rounds count (some (s, true)) = s.failure_count ≡ pos 0
Rounds count (some (s, false)) = s.failure_count ≡ add_int count (pos 1)

-- What `verifyScaledNode` may end with: a panic, a node that joined and no failure counted, or one
-- failure more than the threshold.
abbrev pub Ends : ℕ → Verified → Type 0
Ends threshold crashed = Unit {0}
Ends threshold exhausted = ⊥
Ends threshold (verified s true) = s.failure_count ≡ pos 0
Ends threshold (verified s false) = s.failure_count ≡ pos (suc threshold)

module _ {W B : Type 0} (c : Consul W B) (api : AwsApi W) (patience : Patience) where
  verify_round-Rounds :
      (pool : WorkerPool) (s : ScalingState) (w : W)
      → Rounds s.failure_count (verify_round c api patience pool s w).1
  unfolding verify_round
  verify_round-Rounds pool s w =
      let recent = get_most_recent_instance api patience pool.name pool.region w in
      elim (Result-cases recent.1) [
        | inl e ↦ rw (e, verify_round) (counts recent.0)
        | inr (ip, e) ↦
            let found = find_node_by_address api patience pool.name ip recent.0 in
            elim (Option-cases found.1) [
              | inl e' ↦ rw (e, e', verify_round) tt
              | inr (joined, e') ↦ elim (Bool-cases joined) [
                | inl on ↦ rw (e, e', on, verify_round) (succeeds found.0)
                | inr off ↦
                    let counted = count_failure c api patience s found.0 in
                    let cleaned = failed_event_cleanup c api patience pool counted.1 ip counted.0 in
                    elim (Option-cases cleaned.1) [
                      | inl e'' ↦ rw (e, e', off, e'', verify_round) tt
                      | inr (refused, e'') ↦ rw (e, e', off, e'', verify_round) (counts found.0)
                    ]
              ]
            ]
      ]
    where
      counts :
          (v : W)
          → (count_failure c api patience s v).1.failure_count ≡ add_int s.failure_count (pos 1)
      counts v = unfold count_failure persist_state in refl

      succeeds : (v : W) → (record_success c api patience s v).1.failure_count ≡ pos 0
      succeeds v = unfold record_success persist_state in refl

  -- `verifyScaledNode` comes to an end with as many rounds as its failure count can be raised without
  -- exceeding the retry threshold, and one more: with a panic, with a node that joined and the count
  -- set to 0, or with a count of one more than the threshold. The count starts at most there, and 64 bits hold
  -- it.
  pub verify_scaled_node-Ends :
      (rounds f t : ℕ) (pool : WorkerPool) (s : ScalingState) (w : W)
      → pool.retry_threshold ≡ pos t
      → s.failure_count ≡ pos f
      → f ≤ suc t
      → suc t ≤ f + rounds
      → t < 9223372036854775807
      → Ends t (verify_scaled_node c api patience rounds pool s w).1
  unfolding verify_scaled_node
  verify_scaled_node-Ends zero f t pool s w ht hf below enough b =
      rw (full, verify_scaled_node) (hf ∙ ap pos (omega arith))
    where
      full : lez s.failure_count pool.retry_threshold ≡ false
      full = ground arith
  verify_scaled_node-Ends (suc rounds) f t pool s w ht hf below enough b =
      elim (Bool-cases (lez s.failure_count pool.retry_threshold)) [
        | inr over ↦ rw (over, verify_scaled_node) (hf ∙ ap pos (at_end over))
        | inl within ↦
            step within (verify_round c api patience pool s w).1 refl (verify_round-Rounds pool s w)
              (λ s'.
                verify_scaled_node-Ends rounds (suc f) t pool s'
                  (verify_round c api patience pool s w).0)
      ]
    where
      at_end : lez s.failure_count pool.retry_threshold ≡ false → f ≡ suc t
      at_end over = ground arith

      not_over : lez s.failure_count pool.retry_threshold ≡ true → f < suc t
      not_over within = ground arith

      step :
          lez s.failure_count pool.retry_threshold ≡ true
          → (reply : Option (ScalingState × Bool))
          → (verify_round c api patience pool s w).1 ≡ reply
          → Rounds s.failure_count reply
          → ((s' : ScalingState)
              → pool.retry_threshold ≡ pos t
              → s'.failure_count ≡ pos (suc f)
              → suc f ≤ suc t
              → suc t ≤ suc f + rounds
              → t < 9223372036854775807
              → Ends t
                  (verify_scaled_node c api patience rounds pool s'
                    (verify_round c api patience pool s w).0).1)
          → Ends t (verify_scaled_node c api patience (suc rounds) pool s w).1
      step within none e k rest = rw (within, e, verify_scaled_node) tt
      step within (some (s', true)) e k rest = rw (within, e, verify_scaled_node) k
      step within (some (s', false)) e k rest =
          let less = not_over within in
          rw (within, e, verify_scaled_node)
            (rest s' ht
              (k
                ∙ ap (λ x. add_int x (pos 1)) hf
                ∙ add_int-pos f 1 (omega arith)
                ∙ ap pos (omega arith))
              less (omega arith) b)

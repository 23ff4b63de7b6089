-- ===== src/Aws/Provider.antt =====
-- cloud/aws/aws_cloud_provider.go: the scaling operations of the provider.
use replicator.Base.{
  ℕ, zero, suc, String, Bool, true, false, not, Option, none, some, List, [], ◌∷◌, if◌then◌else◌,
  string_eq, ok, err, M, pure, ◌>>=◌,
}
use replicator.Base.Int.{pos, pos_part, lez, eqz, add_int, ◌+ℤ◌, ◌-ℤ◌}
use replicator.Structs.{WorkerPool, ScalingState, inward, out}
use replicator.World.{Consul}
use replicator.State.{persist_state}
use replicator.Aws.{
  AwsApi, Patience, describe_scaling_group, verify_asg_update, await_activity, detach_instance,
  terminate_instance, translate_ip_to_id, get_most_recent_instance, find_node_by_address,
  safety_check,
}
use replicator.Scaling.{Machines}

-- The list without its last element.
unfoldable pub drop_last : List String → List String
drop_last [] = []
drop_last (x ∷ []) = []
drop_last (x ∷ y ∷ xs) = x ∷ drop_last (y ∷ xs)

-- How `verifyScaledNode` ends: a panic, its result, or more rounds than `rounds`.
pub data Verified : Type 0 where
  crashed exhausted : Verified
  verified : ScalingState → Bool → Verified

module _ {W B : Type 0} (c : Consul W B) (api : AwsApi W) (patience : Patience) where
  -- `scaleOut`; `true` is an error.
  unfoldable pub scale_out : WorkerPool → M W (Option Bool)
  scale_out pool w =
      let (w', reply) = api.describe_groups pool.name w in
      elim (describe_scaling_group reply) [
        | none ↦ (w', none)
        | some r ↦ elim r [
          | err ↦ (w', some true)
          | ok g ↦
              let capacity = add_int g.desired_capacity (pos 1) in
              let (w'', refused) = api.update_group pool.name capacity w' in
              if refused
              then (w'', some true)
              else verify_asg_update api patience pool.name capacity w''
        ]
      ]

  -- What is done once the instance has been detached.
  unfoldable pub retire : WorkerPool → String → ScalingState → M W (Option (ScalingState × Bool))
  retire pool instance_id s w =
      let (w', reply) = terminate_instance api patience instance_id pool.region w in
      elim reply [
        | none ↦ (w', none)
        | some refused ↦
            if refused
            then (w', some (s, true))
            else let (w2, now) = c.now w' in
              let (w3, r) =
                persist_state c (record s { last_scaling_event = now; failure_count = pos 0 }) w2 in
              (w3, some (r.0, false))
      ]

  -- A detachment that is refused is only logged.
  unfoldable pub detach_and_retire :
      WorkerPool → String → ScalingState → M W (Option (ScalingState × Bool))
  unfolding retire
  detach_and_retire pool instance_id s w =
      let (w', reply) = api.detach pool.name instance_id w in
      elim reply [
        | err ↦ retire pool instance_id s w'
        | ok activities ↦
            let (w'', answer) = await_activity api patience activities w' in
            elim answer [
              | none ↦ (w'', none)
              | some stuck ↦ if stuck then (w'', some (s, true)) else retire pool instance_id s w''
            ]
      ]

  -- `scaleIn`
  unfoldable pub scale_in : WorkerPool → ScalingState → M W (Option (ScalingState × Bool))
  unfolding detach_and_retire
  scale_in pool s w = elim s.eligible_nodes [
    | [] ↦ (w, some (s, true))
    | node ∷ nodes ↦
        let s' : ScalingState = record s { eligible_nodes = drop_last (node ∷ nodes) } in
        let (w', id) = translate_ip_to_id api patience node pool.region w in
        elim id [ none ↦ (w', none) | some instance_id ↦ detach_and_retire pool instance_id s' w' ]
  ]

  -- `failedEventCleanup`; its errors are only logged, and `none` is a panic.
  unfoldable pub failed_event_cleanup : WorkerPool → ScalingState → String → M W (Option Bool)
  failed_event_cleanup pool s node w =
      let (w', id) = translate_ip_to_id api patience node pool.region w in
      elim id [
        | none ↦ (w', none)
        | some instance_id ↦
            if eqz s.failure_count pool.retry_threshold
            then detach_instance api patience pool.name instance_id w'
            else terminate_instance api patience instance_id pool.region w'
      ]

  -- The failure count raised by one, and persisted; an error of that is only logged.
  unfoldable pub count_failure : ScalingState → M W ScalingState
  count_failure s = do
    r ← persist_state c (record s { failure_count = add_int s.failure_count (pos 1) })
    pure r.0

  unfoldable pub record_success : ScalingState → M W ScalingState
  record_success s = do
    now ← c.now
    r ← persist_state c (record s { failure_count = pos 0; last_scaling_event = now })
    pure r.0

  -- One round of the loop of `verifyScaledNode`: a panic, or the state and whether it is done.
  unfoldable pub verify_round : WorkerPool → ScalingState → M W (Option (ScalingState × Bool))
  unfolding failed_event_cleanup count_failure record_success
  verify_round pool s w =
      let (w1, recent) = get_most_recent_instance api patience pool.name pool.region w in
      elim recent [
        | err ↦ let (w2, s') = count_failure s w1 in (w2, some (s', false))
        | ok ip ↦
            let (w2, found) = find_node_by_address api patience pool.name ip w1 in
            elim found [
              | none ↦ (w2, none)
              | some joined ↦
                  if joined
                  then (let (w3, s') = record_success s w2 in (w3, some (s', true)))
                  else (let (w3, s') = count_failure s w2 in
                      let (w4, cleaned) = failed_event_cleanup pool s' ip w3 in
                      (w4, elim cleaned [ none ↦ none | some refused ↦ some (s', false) ]))
            ]
      ]

  -- `verifyScaledNode`, with at most `rounds` rounds.
  unfoldable pub verify_scaled_node : ℕ → WorkerPool → ScalingState → M W Verified
  unfolding verify_round
  verify_scaled_node zero pool s w =
      (w, if lez s.failure_count pool.retry_threshold then exhausted else verified s false)
  verify_scaled_node (suc rounds) pool s w = elim (lez s.failure_count pool.retry_threshold) [
    | false ↦ (w, verified s false)
    | true ↦
        let (w', reply) = verify_round pool s w in
        elim reply [
          | none ↦ (w', crashed)
          | some (s', done) ↦ elim done [
            | true ↦ (w', verified s' true)
            | false ↦ verify_scaled_node rounds pool s' w'
          ]
        ]
  ]

  -- Rounds for which the failure count can stay within the retry threshold.
  unfoldable pub rounds_needed : WorkerPool → ScalingState → ℕ
  rounds_needed pool s = pos_part (pool.retry_threshold +ℤ pos 1 -ℤ s.failure_count)

  -- The answer of `Scale` to what `verifyScaledNode` found. It is not exhausted with the rounds that
  -- are needed.
  unfoldable pub scale_answer : Verified → Option (ScalingState × Bool)
  scale_answer crashed = none
  scale_answer exhausted = none
  scale_answer (verified s joined) = some (s, not joined)

  -- `Scale`
  unfoldable pub scale : WorkerPool → ScalingState → M W (Option (ScalingState × Bool))
  unfolding scale_out scale_in verify_scaled_node rounds_needed scale_answer
  scale pool s w = elim s.scaling_direction [
    | out ↦
        let (w', launched) = scale_out pool w in
        elim launched [
          | none ↦ (w', none)
          | some refused ↦
              if refused
              then (w', some (s, true))
              else (let (w'', v) = verify_scaled_node (rounds_needed pool s) pool s w' in
                  (w'', scale_answer v))
        ]
    | inward ↦ scale_in pool s w
    | _ ↦ (w, some (s, false))
  ]

  -- `AwsScalingProvider` as the provider of a pool, with the `DrainNode` of the Nomad client.
  unfoldable pub aws_machines : (String → M W Bool) → Machines W
  unfolding scale
  aws_machines drain_node = record {
    safety_check = safety_check api patience;
    scale = λ pool s r. scale pool s;
    drain_node = drain_node;
  }

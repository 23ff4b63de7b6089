-- ===== src/Aws.antt =====
-- cloud/aws, and `FindNodeByAddress` of helper/funcs.go. The APIs of EC2 and of the autoscaling groups
-- are parameters; `none` is a panic. Logging and metrics are left out.
pub mod Provider
pub mod Limits
pub mod Termination
pub mod Rounds
pub mod Eligible
use replicator.Base.{
  ℕ, String, Bool, true, false, not, ◌&&◌, ◌||◌, Option, none, some, List, [], ◌∷◌, if◌then◌else◌,
  ◌+◌, ◌*◌, ◌==◌, string_eq, ltb, length, Result, ok, err, M,
}
use replicator.Base.Dict.{Dict, lookup, values}
use replicator.Base.Int.{ℤ, pos, eqz, ltz, add_int, sub_int}
use replicator.Helper.{find_ip}
use replicator.Structs.{Node, NodeRegistry, WorkerPool, ScalingState, inward, out, Time, second}
use replicator.Polling.{Tick, again, finished, poll, poll_again}

-- An autoscaling group, as far as it is read.
pub record ScalingGroup : Type 0 where
  pub desired_capacity : ℤ
  pub max_size : ℤ
  pub min_size : ℤ
  pub instances : List String

pub record Activity : Type 0 where
  pub id : String
  pub status : String

pub record Instance : Type 0 where
  pub id : String
  pub ip : String
  pub launch_time : Time

-- The requests, with the time of a tick, the clock and the registry that the watcher keeps.
pub record AwsApi (W : Type 0) : Type 0 where
  -- The groups with the name, and whether there was an error.
  pub describe_groups : String → M W (List ScalingGroup × Bool)
  -- A new desired capacity of the group; `true` is an error.
  pub update_group : String → ℤ → M W Bool
  pub detach : String → String → M W (Result (List Activity))
  pub describe_activities : String → M W (Result (List Activity))
  -- The ids of the instances with the address, by reservation.
  pub instances_at : String → String → M W (Result (List (List String)))
  -- The running and pending instances of the group, by reservation.
  pub instances_of : String → String → M W (Result (List (List Instance)))
  -- `true` is an error.
  pub terminate : String → String → M W Bool
  pub instance_states : String → String → M W (Result (List String))
  pub tick : W → W
  pub time : M W Time
  pub registry : M W NodeRegistry
  pub find_string : String → String → String

-- How many ticks come before the timeout of each loop.
pub record Patience : Type 0 where
  pub recent : ℕ
  pub result : ℕ
  pub update : ℕ
  pub termination : ℕ
  pub joined : ℕ

-- `describeScalingGroup`: where there is not exactly one group, its error message reads a nil pointer.
unfoldable pub describe_scaling_group : List ScalingGroup × Bool → Option (Result ScalingGroup)
describe_scaling_group (g ∷ [], false) = some (ok g)
describe_scaling_group (g ∷ [], true) = some err
describe_scaling_group (groups, failed) = none

abbrev activity_successful : String
activity_successful = "Successful"

abbrev activity_failed : String
activity_failed = "Failed"

abbrev activity_cancelled : String
activity_cancelled = "Cancelled"

abbrev pub instance_terminated : String
instance_terminated = "terminated"

-- Whether the sizes of the group permit the operation that the state wants.
unfoldable pub within_sizes : ℕ → ScalingState → ScalingGroup → Bool
within_sizes nodes s g =
    if not (eqz (pos nodes) g.desired_capacity) then false else elim s.scaling_direction [
      | inward ↦ not (ltz (sub_int g.desired_capacity (pos 1)) g.min_size)
      | out ↦ not (ltz g.max_size (add_int g.desired_capacity (pos 1)))
      | _ ↦ true
    ]

-- The newest instance, compared with the newest so far.
unfoldable pub newest : List Instance → Time × String → Time × String
newest [] best = best
newest (i ∷ instances) best =
    newest instances (if ltb best.0 i.launch_time then (i.launch_time, i.ip) else best)

unfoldable pub newest_of : List (List Instance) → Time × String → Time × String
unfolding newest
newest_of [] best = best
newest_of (instances ∷ reservations) best = newest_of reservations (newest instances best)

-- Whether a node of the pool has the address.
unfoldable pub has_address : (String → String → String) → String → List Node → Bool
has_address find_string address [] = false
has_address find_string address (node ∷ nodes) =
    if find_ip find_string node.http_addr == address
    then true
    else has_address find_string address nodes

module _ {W : Type 0} (api : AwsApi W) (patience : Patience) where
  -- `SafetyCheck`
  unfoldable pub safety_check : WorkerPool → ScalingState → M W (Option Bool)
  unfolding describe_scaling_group within_sizes
  safety_check pool s w =
      let (w', reply) = api.describe_groups pool.name w in
      (
        w',
        elim (describe_scaling_group reply) [
          | none ↦ none
          | some r ↦ elim r [
            | err ↦ some false
            | ok g ↦ some (within_sizes (length pool.nodes) s g)
          ]
        ],
      )

  update_attempt : String → ℤ → W → W × Tick (Option Bool)
  unfolding describe_scaling_group
  update_attempt name capacity w =
      let (w', reply) = api.describe_groups name (api.tick w) in
      (
        w',
        elim (describe_scaling_group reply) [
          | none ↦ finished none
          | some r ↦ elim r [
            | err ↦ again
            | ok g ↦
                if eqz (pos (length g.instances)) capacity then finished (some false) else again
          ]
        ],
      )

  -- `verifyAsgUpdate`; `true` is an error, here and in what follows.
  unfoldable pub verify_asg_update : String → ℤ → M W (Option Bool)
  unfolding update_attempt
  verify_asg_update name capacity =
      poll_again (some true) (update_attempt name capacity) patience.update

  judge_activity : List Activity → Tick (Option Bool)
  judge_activity [] = finished none
  judge_activity (a ∷ activities) =
      if a.status == activity_failed || a.status == activity_cancelled
      then finished (some true)
      else if a.status == activity_successful
      then finished (some false)
      else again

  result_attempt : String → W → W × Tick (Option Bool)
  unfolding judge_activity
  result_attempt activity w =
      let (w', reply) = api.describe_activities activity (api.tick w) in
      (w', elim reply [ err ↦ finished (some true) | ok activities ↦ judge_activity activities ])

  -- `checkClusterScalingResult`
  unfoldable pub check_cluster_scaling_result : String → M W (Option Bool)
  unfolding result_attempt
  check_cluster_scaling_result activity =
      poll_again (some true) (result_attempt activity) patience.result

  -- The activity of a request that was accepted.
  unfoldable pub await_activity : List Activity → M W (Option Bool)
  await_activity [] w = (w, none)
  await_activity (a ∷ activities) w =
      if a.status == activity_successful
      then (w, some false)
      else check_cluster_scaling_result a.id w

  -- `detachInstance`
  unfoldable pub detach_instance : String → String → M W (Option Bool)
  unfolding await_activity
  detach_instance asg instance_id w =
      let (w', reply) = api.detach asg instance_id w in
      elim reply [ err ↦ (w', some true) | ok activities ↦ await_activity activities w' ]

  termination_attempt : String → String → W → W × Tick (Option Bool)
  termination_attempt instance_id region w =
      let (w', reply) = api.instance_states instance_id region (api.tick w) in
      (
        w',
        elim reply [
          | err ↦ finished (some true)
          | ok states ↦ elim states [
            | [] ↦ finished none
            | x ∷ xs ↦ if x == instance_terminated then finished (some false) else again
          ]
        ],
      )

  -- `terminateInstance`
  unfoldable pub terminate_instance : String → String → M W (Option Bool)
  unfolding termination_attempt
  terminate_instance instance_id region w =
      let (w', refused) = api.terminate instance_id region w in
      if refused
      then (w', some true)
      else poll_again (some true) (termination_attempt instance_id region) patience.termination w'

  -- `translateIptoID`: the empty string after an error.
  unfoldable pub translate_ip_to_id : String → String → M W (Option String)
  translate_ip_to_id ip region w =
      let (w', reply) = api.instances_at ip region w in
      (
        w',
        elim reply [
          | err ↦ some ""
          | ok reservations ↦ elim reservations [
            | [] ↦ none
            | ids ∷ more ↦ elim ids [ [] ↦ none | id ∷ others ↦ some id ]
          ]
        ],
      )

  recent_attempt :
      String → String → ℕ → Time × String → W → W × (Time × String) × Tick (Result String)
  unfolding newest_of
  recent_attempt asg region threshold best w =
      let (w', reply) = api.instances_of asg region (api.tick w) in
      elim reply [
        | err ↦ (w', best, again)
        | ok reservations ↦ elim reservations [
          | [] ↦ (w', best, again)
          | r ∷ rs ↦
              let found = newest_of (r ∷ rs) best in
              (
                w',
                found,
                if ltb threshold (found.0 + 90 * second) then finished (ok found.1) else again,
              )
        ]
      ]

  -- `getMostRecentInstance`: the address of an instance that was launched at most 90 seconds before
  -- the call.
  unfoldable pub get_most_recent_instance : String → String → M W (Result String)
  unfolding recent_attempt
  get_most_recent_instance asg region w =
      let (w', now) = api.time w in
      poll err (recent_attempt asg region now) patience.recent (0, "") w'

  address_attempt : String → String → W → W × Tick (Option Bool)
  unfolding has_address
  address_attempt name address w =
      let (w', r) = api.registry (api.tick w) in
      (
        w',
        elim (lookup name r.worker_pools) [
          | none ↦ finished none
          | some pool ↦
              if has_address api.find_string address (values pool.nodes)
              then finished (some true)
              else again
        ],
      )

  -- `FindNodeByAddress`; a pool that is missing is a nil pointer.
  unfoldable pub find_node_by_address : String → String → M W (Option Bool)
  unfolding address_attempt
  find_node_by_address name address =
      poll_again (some false) (address_attempt name address) patience.joined

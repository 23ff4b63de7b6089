-- ===== src/Helper/Recent.antt =====
-- `FindNodeByRegistrationTime` of helper/funcs.go: the node of a pool that was registered last is
-- awaited. The clock and the registry as it is at each tick are parameters; logging is left out.
use replicator.Base.{
  ℕ, ◌*◌, String, string_eq, Option, none, some, [], ◌∷◌, if◌then◌else◌, ltb, Result, ok, err, M,
}
use replicator.Base.Dict.{Dict, lookup}
use replicator.Base.Int.{ℤ, pos, ltz, ◌-ℤ◌}
use replicator.Structs.{NodeRegistry, Time, second}
use replicator.Polling.{Tick, again, finished, poll}

-- The loop over the registrations, on top of the most recent launch and its node so far.
unfoldable pub latest : Dict String Time → Time × String → Time × String
latest [] best = best
latest ((node, time) ∷ registrations) (launch, id) =
    latest registrations (if ltb launch time then (time, node) else (launch, id))

module _ {W : Type 0} (now : M W Time) (tick : W → W) (registry : M W NodeRegistry)
    (ticks : ℕ) where
  registration_attempt :
      String → ℤ → Time × String → W → W × (Time × String) × Tick (Option (Result String))
  unfolding latest
  registration_attempt name threshold best w =
      let (w', r) = registry (tick w) in
      elim (lookup name r.worker_pools) [
        | none ↦ (w', best, finished none)
        | some pool ↦
            let best' = latest pool.node_registrations best in
            (w', best', if ltz threshold (pos best'.0) then finished (some (ok best'.1)) else again)
      ]

  -- `FindNodeByRegistrationTime`; a pool that is missing is a nil pointer, and `none` that panic.
  unfoldable pub find_node_by_registration_time : String → M W (Option (Result String))
  unfolding registration_attempt
  find_node_by_registration_time name w =
      let (w', time) = now w in
      poll (some err) (registration_attempt name (pos time -ℤ pos (60 * second))) ticks (0, "") w'

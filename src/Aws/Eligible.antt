-- ===== src/Aws/Eligible.antt =====
-- What `scaleIn` does to the list of eligible nodes.
use mathlib.Core.Path.{subst}
use replicator.Base.{
  String, Bool, ◌≡◌, refl, inl, inr, Option, none, some, List, ◌∷◌, Bool-cases, Option-cases,
  Result-cases,
}
use replicator.Structs.{WorkerPool, ScalingState}
use replicator.World.{Consul}
use replicator.State.{persist_state}
use replicator.Aws.{AwsApi, Patience, await_activity, terminate_instance, translate_ip_to_id}
use replicator.Aws.Provider.{drop_last, retire, detach_and_retire, scale_in}

-- The eligible nodes of the state of a result, if there is one.
abbrev Leaves : List String → Option (ScalingState × Bool) → Type 0
Leaves nodes none = Unit {0}
Leaves nodes (some (s, e)) = s.eligible_nodes ≡ nodes

module _ {W B : Type 0} (c : Consul W B) (api : AwsApi W) (patience : Patience) where
  retire-Leaves :
      (pool : WorkerPool) (id : String) (s : ScalingState) (w : W)
      → Leaves s.eligible_nodes (retire c api patience pool id s w).1
  unfolding retire persist_state
  retire-Leaves pool id s w =
      let reply = terminate_instance api patience id pool.region w in
      elim (Option-cases reply.1) [
        | inl e ↦ rw (e, retire) tt
        | inr (refused, e) ↦ elim (Bool-cases refused) [
          | inl on ↦ rw (e, on, retire) refl
          | inr off ↦ rw (e, off, retire) refl
        ]
      ]

  detach_and_retire-Leaves :
      (pool : WorkerPool) (id : String) (s : ScalingState) (w : W)
      → Leaves s.eligible_nodes (detach_and_retire c api patience pool id s w).1
  unfolding detach_and_retire
  detach_and_retire-Leaves pool id s w =
      let reply = api.detach pool.name id w in
      elim (Result-cases reply.1) [
        | inl e ↦ rw (e, detach_and_retire) (retire-Leaves pool id s reply.0)
        | inr (activities, e) ↦
            let answer = await_activity api patience activities reply.0 in
            elim (Option-cases answer.1) [
              | inl e' ↦ rw (e, e', detach_and_retire) tt
              | inr (stuck, e') ↦ elim (Bool-cases stuck) [
                | inl on ↦ rw (e, e', on, detach_and_retire) refl
                | inr off ↦ rw (e, e', off, detach_and_retire) (retire-Leaves pool id s answer.0)
              ]
            ]
      ]

  scale_in-Leaves :
      (pool : WorkerPool) (s : ScalingState) (w : W) (a b : String) (rest : List String)
      → s.eligible_nodes ≡ a ∷ b ∷ rest
      → Leaves (a ∷ drop_last (b ∷ rest)) (scale_in c api patience pool s w).1
  unfolding scale_in drop_last
  scale_in-Leaves pool s w a b rest h =
      let id = translate_ip_to_id api patience a pool.region w in
      elim (Option-cases id.1) [
        | inl e ↦ rw (h, e, scale_in) tt
        | inr (instance_id, e) ↦
            rw (h, e, scale_in)
              (detach_and_retire-Leaves pool instance_id
                (record s { eligible_nodes = a ∷ drop_last (b ∷ rest) }) id.0)
      ]

  -- Whatever a scale-in of a pool with several eligible nodes returns, unless it panics, the first of
  -- them, which it takes to be removed, stays the first of the eligible nodes, and the last of them is
  -- forgotten in its place.
  pub scale_in_first :
      (pool : WorkerPool) (s s' : ScalingState) (failed : Bool) (w : W) (a b : String)
      (rest : List String)
      → s.eligible_nodes ≡ a ∷ b ∷ rest
      → (scale_in c api patience pool s w).1 ≡ some (s', failed)
      → s'.eligible_nodes ≡ a ∷ drop_last (b ∷ rest)
  scale_in_first pool s s' failed w a b rest h e =
      subst (Leaves (a ∷ drop_last (b ∷ rest))) e (scale_in-Leaves pool s w a b rest h)

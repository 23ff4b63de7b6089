-- ===== src/Drain/Laws.antt =====
-- What an error of `DrainNode` means.
use mathlib.Core.List.{Memᴰ}
use replicator.Base.{
  ℕ, zero, suc, String, true, false, ◌≡◌, refl, ap, ◌∙◌, ◌⊎◌, ◌↔◌, inl, inr, List, [], ◌∷◌, ok, err,
  string_eq, arith, Bool-cases, Result-cases,
}
use replicator.Polling.{poll, poll_again}
use replicator.Drain.{NomadDrain, has_active, drain_attempt, drain_node}

-- A list of client statuses has a running or a pending one.
abbrev pub IsActive : List String → Type 0
IsActive statuses = Memᴰ "running" statuses ⊎ Memᴰ "pending" statuses

has_active-IsActive : (statuses : List String) → has_active statuses ≡ true → IsActive statuses
unfolding has_active
has_active-IsActive [] h = absurd (ground (arith, h))
has_active-IsActive (s ∷ statuses) h = elim (string_eq.dec "running" s) [
  | yes e ↦ inl (Memᴰ.head e)
  | no e ↦ elim (string_eq.dec "pending" s) [
    | yes f ↦ inr (Memᴰ.head f)
    | no f ↦ elim (has_active-IsActive statuses (ground (arith, h, e, f))) [
      | inl m ↦ inl (Memᴰ.tail m)
      | inr m ↦ inr (Memᴰ.tail m)
    ]
  ]
]

IsActive-has_active : (statuses : List String) → IsActive statuses → has_active statuses ≡ true
unfolding has_active
IsActive-has_active [] (inl m) = elim m [ ]
IsActive-has_active [] (inr m) = elim m [ ]
IsActive-has_active (s ∷ statuses) (inl (Memᴰ.head e)) = ground (arith, e)
IsActive-has_active (s ∷ statuses) (inr (Memᴰ.head e)) = ground (arith, e)
IsActive-has_active (s ∷ statuses) (inl (Memᴰ.tail m)) =
    ground (arith, IsActive-has_active statuses (inl m))
IsActive-has_active (s ∷ statuses) (inr (Memᴰ.tail m)) =
    ground (arith, IsActive-has_active statuses (inr m))

module _ {W : Type 0} (n : NomadDrain W) (ticks : ℕ) where
  -- Within so many ticks, from a world on, a request for the allocations of the node fails, after
  -- answers that have a running or a pending one.
  abbrev pub IsLost : String → ℕ → W → Type 0
  IsLost node zero w = ⊥
  IsLost node (suc left) w =
      let (w', reply) = n.statuses_of node (n.tick w) in
      (reply ≡ err)
      ⊎ ((statuses : List String) × (reply ≡ ok statuses) × IsActive statuses × IsLost node left w')

  drain_attempt-IsLost :
      (node : String) (left : ℕ) (w : W)
      → (poll_again false (drain_attempt n ticks node) left w).1 ≡ true
      → IsLost node left w
  unfolding poll_again poll drain_attempt
  drain_attempt-IsLost node zero w h = absurd (ground (arith, h))
  drain_attempt-IsLost node (suc left) w h = elim (Result-cases (n.statuses_of node (n.tick w)).1) [
    | inl e ↦ inl e
    | inr (statuses, e) ↦ elim (Bool-cases (has_active statuses)) [
      | inl active ↦ inr (
        statuses,
        e,
        has_active-IsActive statuses active,
        drain_attempt-IsLost node left (n.statuses_of node (n.tick w)).0
            (rw (e, active, poll_again, poll, drain_attempt) at h),
      )
      | inr idle ↦ absurd (ground (arith, rw (e, idle, poll_again, poll, drain_attempt) at h))
    ]
  ]

  drain_attempt_within :
      (node : String) (left : ℕ) (w : W)
      → IsLost node left w
      → (poll_again false (drain_attempt n ticks node) left w).1 ≡ true
  unfolding poll_again poll drain_attempt
  drain_attempt_within node zero w impossible = elim impossible [ ]
  drain_attempt_within node (suc left) w (inl e) = rw (e, poll_again, poll, drain_attempt) refl
  drain_attempt_within node (suc left) w (inr (statuses, e, active, later)) =
      let goes_on = IsActive-has_active statuses active in
      rw (e, goes_on, poll_again, poll, drain_attempt)
        (drain_attempt_within node left (n.statuses_of node (n.tick w)).0 later)

  -- `DrainNode` returns an error exactly if a request that it makes fails: that to drain the node, then
  -- that for the node, or, once the node drains, one for its allocations before the timeout and while
  -- all answers before had a running or a pending allocation. So neither a timeout nor a node that does
  -- not drain is an error.
  pub drain_node_iff :
      (node : String) (w : W)
      → ((drain_node n ticks node w).1 ≡ true) ↔ (
          let (w1, refused) = n.update_drain node w in
          let (w2, reply) = n.drain_of node w1 in
          (refused ≡ true)
          ⊎ (refused ≡ false) × ((reply ≡ err) ⊎ (reply ≡ ok true) × IsLost node ticks w2))
  unfolding drain_node
  drain_node_iff node w = (forth, back)
    where
      w1 : W
      w1 = (n.update_drain node w).0

      w2 : W
      w2 = (n.drain_of node w1).0

      forth :
          (drain_node n ticks node w).1 ≡ true
          → ((n.update_drain node w).1 ≡ true)
            ⊎ ((n.update_drain node w).1 ≡ false)
              × (((n.drain_of node w1).1 ≡ err)
                  ⊎ ((n.drain_of node w1).1 ≡ ok true) × IsLost node ticks w2)
      forth h = elim (Bool-cases (n.update_drain node w).1) [
        | inl e ↦ inl e
        | inr accepted ↦ elim (Result-cases (n.drain_of node w1).1) [
          | inl e ↦ inr (accepted, inl e)
          | inr (draining, e) ↦ elim (Bool-cases draining) [
            | inr off ↦ absurd (ground (arith, rw (accepted, e, off, drain_node) at h))
            | inl on ↦ inr (
              accepted,
              inr (
                e ∙ ap ok on,
                drain_attempt-IsLost node ticks w2 (rw (accepted, e, on, drain_node) at h),
              ),
            )
          ]
        ]
      ]

      back :
          ((n.update_drain node w).1 ≡ true)
            ⊎ ((n.update_drain node w).1 ≡ false)
              × (((n.drain_of node w1).1 ≡ err)
                  ⊎ ((n.drain_of node w1).1 ≡ ok true) × IsLost node ticks w2)
          → (drain_node n ticks node w).1 ≡ true
      back (inl refused) = rw (refused, drain_node) refl
      back (inr (accepted, inl e)) = rw (accepted, e, drain_node) refl
      back (inr (accepted, inr (e, lost))) =
          rw (accepted, e, drain_node) (drain_attempt_within node ticks w2 lost)

-- ===== src/Capacity/Idle.antt =====
-- What `LeastAllocatedNode` makes of a node that uses nothing.
use replicator.Base.{
  String, true, ◌≡◌, ◌≢◌, refl, ap, ◌∙◌, ◌⊎◌, inl, inr, List, [], ◌∷◌, ◌++◌, All, arith,
  if◌then◌else◌, ◌==◌, ◌||◌, string_eq, Bool-cases,
}
use replicator.Floats.{Floats, IsOrdered}
use replicator.Structs.{NodeAllocation, Metric}
use replicator.Capacity.Limits.{consider, least_loop}
use replicator.Capacity.Lowest.{measure, IsMeasured, consider_lem}

module _ {F : Type 0} (fl : Floats F) where
  -- A number that is 0 or above it.
  abbrev pub IsAmount : F → Type 0
  IsAmount x = (fl.eq x fl.zero ≡ true) ⊎ (fl.lt fl.zero x ≡ true)

  -- The shares of the unprotected nodes are 0 or above it.
  abbrev pub AreAmounts : Metric → String → List (NodeAllocation F) → Type 0
  AreAmounts metric protected_node nodes =
      All (λ node. node.node_id ≢ protected_node → IsAmount (measure fl metric node)) nodes

module _ {F : Type 0} (fl : Floats F) (o : IsOrdered fl) (metric : Metric) (protected_node : String)
    (m : IsMeasured fl metric) where
  -- Nodes that are protected are passed over.
  protected-least_loop :
      (mid nodes : List (NodeAllocation F)) (best : F × String)
      → All (λ node. node.node_id ≡ protected_node) mid
      → least_loop fl metric protected_node (mid ++ nodes) best
        ≡ least_loop fl metric protected_node nodes best
  unfolding least_loop
  protected-least_loop [] nodes best all = refl
  protected-least_loop (node ∷ mid) nodes best all =
      let e : (if node.node_id == protected_node then best else consider fl metric node best)
          ≡ best =
        ground (arith, all.0) in
      ap (least_loop fl metric protected_node (mid ++ nodes)) e
      ∙ protected-least_loop mid nodes best all.1

  -- A node that uses nothing is taken, and the next unprotected one in its place.
  idle-least_loop :
      (mid nodes : List (NodeAllocation F)) (idle node : NodeAllocation F) (best : F × String)
      → IsAmount fl best.0
      → fl.eq (measure fl metric idle) fl.zero ≡ true
      → idle.node_id ≢ protected_node
      → All (λ x. x.node_id ≡ protected_node) mid
      → node.node_id ≢ protected_node
      → least_loop fl metric protected_node (idle ∷ (mid ++ (node ∷ nodes))) best
        ≡ least_loop fl metric protected_node nodes (measure fl metric node, node.node_id)
  unfolding least_loop
  idle-least_loop mid nodes idle node best amount nothing other all other' =
      ap (least_loop fl metric protected_node (mid ++ (node ∷ nodes))) (taken amount)
      ∙ protected-least_loop mid (node ∷ nodes) (measure fl metric idle, idle.node_id) all
      ∙ ap (least_loop fl metric protected_node nodes) (
          ground (
            arith,
            other',
            nothing,
            consider_lem fl metric node (measure fl metric idle, idle.node_id) m,
          ))
    where
      taken :
          IsAmount fl best.0
          → (if idle.node_id == protected_node then best else consider fl metric idle best)
            ≡ (measure fl metric idle, idle.node_id)
      taken (inl zero) = ground (arith, other, zero, consider_lem fl metric idle best m)
      taken (inr above) =
          let below = o.eq_lt (measure fl metric idle) fl.zero best.0 nothing above in
          ground (arith, other, below, consider_lem fl metric idle best m)

  considered-IsAmount :
      (node : NodeAllocation F) (best : F × String)
      → IsAmount fl best.0
      → (node.node_id ≢ protected_node → IsAmount fl (measure fl metric node))
      → IsAmount fl
          (if node.node_id == protected_node then best else consider fl metric node best).0
  considered-IsAmount node best amount share = elim (string_eq.dec node.node_id protected_node) [
    | yes same ↦
        let e : (if node.node_id == protected_node then best else consider fl metric node best)
            ≡ best =
          ground (arith, same) in
        rw e amount
    | no other ↦ elim (Bool-cases (fl.eq best.0 fl.zero || fl.lt (measure fl metric node) best.0)) [
      | inl below ↦
          let e : (if node.node_id == protected_node then best else consider fl metric node best)
              ≡ (measure fl metric node, node.node_id) =
            ground (arith, other, below, consider_lem fl metric node best m) in
          rw e (share other)
      | inr over ↦
          let e : (if node.node_id == protected_node then best else consider fl metric node best)
              ≡ best =
            ground (arith, other, over, consider_lem fl metric node best m) in
          rw e amount
    ]
  ]

  idle-least_loop-after :
      (pre mid nodes : List (NodeAllocation F)) (idle node : NodeAllocation F) (best : F × String)
      → IsAmount fl best.0
      → AreAmounts fl metric protected_node pre
      → fl.eq (measure fl metric idle) fl.zero ≡ true
      → idle.node_id ≢ protected_node
      → All (λ x. x.node_id ≡ protected_node) mid
      → node.node_id ≢ protected_node
      → least_loop fl metric protected_node (pre ++ (idle ∷ (mid ++ (node ∷ nodes)))) best
        ≡ least_loop fl metric protected_node nodes (measure fl metric node, node.node_id)
  unfolding least_loop
  idle-least_loop-after [] mid nodes idle node best amount shares nothing other all other' =
      idle-least_loop mid nodes idle node best amount nothing other all other'
  idle-least_loop-after (x ∷ pre) mid nodes idle node best amount shares nothing other all other' =
      idle-least_loop-after pre mid nodes idle node
        (if x.node_id == protected_node then best else consider fl metric x best)
        (considered-IsAmount x best amount shares.0) shares.1 nothing other all other'

  -- Wherever in the list `LeastAllocatedNode` meets an unprotected node with a share of 0, the next
  -- unprotected node takes its place, whatever share that one has: an idle node counts as no node so
  -- far, so that the loop ends as if it began with that next node. The shares of the unprotected nodes
  -- before it are 0 or above it.
  pub least_loop_idle :
      (pre mid nodes : List (NodeAllocation F)) (idle node : NodeAllocation F)
      → fl.eq fl.zero fl.zero ≡ true
      → AreAmounts fl metric protected_node pre
      → fl.eq (measure fl metric idle) fl.zero ≡ true
      → idle.node_id ≢ protected_node
      → All (λ x. x.node_id ≡ protected_node) mid
      → node.node_id ≢ protected_node
      → least_loop fl metric protected_node (pre ++ (idle ∷ (mid ++ (node ∷ nodes)))) (fl.zero, "")
        ≡ least_loop fl metric protected_node nodes (measure fl metric node, node.node_id)
  least_loop_idle pre mid nodes idle node zero shares nothing other all other' =
      idle-least_loop-after pre mid nodes idle node (fl.zero, "") (inl zero) shares nothing other
        all other'

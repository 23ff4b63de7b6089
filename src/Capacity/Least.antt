-- ===== src/Capacity/Least.antt =====
-- Which node `LeastAllocatedNode` picks.
use mathlib.Core.List.{Memᴰ}
use replicator.Base.{
  String, ◌≡◌, ◌≢◌, refl, ◌∙◌, ◌⊎◌, inl, inr, List, [], ◌∷◌, arith, if◌then◌else◌, ◌==◌, string_eq,
}
use replicator.Floats.{Floats}
use replicator.Structs.{
  ClusterCapacity, NodeAllocation, Metric, none_used, disk, memory, processor, unset,
}
use replicator.Capacity.{NomadCapacity}
use replicator.Capacity.Limits.{consider, least_loop, least_allocated_node}

module _ {F : Type 0} where
  -- An id in the list that is not the protected one.
  abbrev pub IsCandidate : String → List (NodeAllocation F) → String → Type 0
  IsCandidate protected_node nodes id =
      (node : NodeAllocation F) × Memᴰ node nodes × (node.node_id ≡ id) × (id ≢ protected_node)

module _ {F : Type 0} (fl : Floats F) where
  consider_id :
      (metric : Metric) (node : NodeAllocation F) (best : F × String)
      → ((consider fl metric node best).1 ≡ best.1)
        ⊎ ((consider fl metric node best).1 ≡ node.node_id)
  unfolding consider
  consider_id none_used node best = inr refl
  consider_id disk node best = ground arith
  consider_id memory node best = ground arith
  consider_id processor node best = ground arith
  consider_id unset node best = inl refl

  IsCandidate-tail :
      (protected_node : String) (node : NodeAllocation F) (nodes : List (NodeAllocation F))
      (id : String)
      → IsCandidate protected_node nodes id
      → IsCandidate protected_node (node ∷ nodes) id
  IsCandidate-tail protected_node node nodes id (x, m, e, ne) = (x, Memᴰ.tail m, e, ne)

  least_loop-IsCandidate :
      (metric : Metric) (protected_node : String) (nodes : List (NodeAllocation F))
      (best : F × String)
      → let id = (least_loop fl metric protected_node nodes best).1 in
        (id ≡ best.1) ⊎ IsCandidate protected_node nodes id
  unfolding least_loop
  least_loop-IsCandidate metric protected_node [] best = inl refl
  least_loop-IsCandidate metric protected_node (node ∷ nodes) best = from_tail _ (
      least_loop-IsCandidate metric protected_node nodes
        (if node.node_id == protected_node then best else consider fl metric node best))
    where
      picked :
          (id : String)
          → id ≡ (if node.node_id == protected_node then best else consider fl metric node best).1
          → (id ≡ best.1) ⊎ IsCandidate protected_node (node ∷ nodes) id
      picked id e = elim (string_eq.dec node.node_id protected_node) [
        | yes same ↦ inl (ground (arith, same))
        | no other ↦ elim (consider_id metric node best) [
          | inl kept ↦ inl (ground (arith, other, kept))
          | inr new ↦
              let here : node.node_id ≡ id = ground (arith, other, new, e) in
              inr (node, Memᴰ.head refl, here, λ same. other (here ∙ same))
        ]
      ]

      from_tail :
          (id : String)
          → ((id
                ≡ (if node.node_id == protected_node then best else consider fl metric node best).1)
              ⊎ IsCandidate protected_node nodes id)
          → (id ≡ best.1) ⊎ IsCandidate protected_node (node ∷ nodes) id
      from_tail id (inl e) = picked id e
      from_tail id (inr h) = inr (IsCandidate-tail protected_node node nodes id h)

  -- `LeastAllocatedNode` returns the id of a node of the pool that is not the protected one, or no
  -- id at all.
  pub least_allocated_node-IsCandidate :
      {W : Type 0} (n : NomadCapacity W) (c : ClusterCapacity F) (protected_node : String) (w : W)
      → let id = (least_allocated_node fl n c protected_node w).1.0 in
        (id ≡ "") ⊎ IsCandidate protected_node c.node_allocations id
  unfolding least_allocated_node
  least_allocated_node-IsCandidate n c protected_node w =
      least_loop-IsCandidate c.scaling_metric.type protected_node c.node_allocations (fl.zero, "")

-- ===== src/Capacity/Picked.antt =====
-- The node that `LeastAllocatedNode` picks.
use mathlib.Core.List.{Memᴰ}
use replicator.Base.{
  String, true, false, ◌≡◌, ◌≢◌, refl, sym, ap, ◌∙◌, ◌⊎◌, inl, inr, List, [], ◌∷◌, arith,
  if◌then◌else◌, ◌==◌, ◌||◌, string_eq, Bool-cases,
}
use replicator.Floats.{Floats, IsOrdered}
use mathlib.Core.Path.{subst}
use replicator.Capacity.{NomadCapacity}
use replicator.Structs.{ClusterCapacity, NodeAllocation, Metric}
use replicator.Capacity.Limits.{consider, least_loop, least_allocated_node}
use replicator.Capacity.Lowest.{
  measure, IsMeasured, AllShared, IsLowest, consider_lem, next_best, least_loop-IsLowest,
}

module _ {F : Type 0} (fl : Floats F) where
  -- The share and the id of an unprotected node of the list.
  abbrev IsPicked : Metric → String → List (NodeAllocation F) → F × String → Type 0
  IsPicked metric protected_node nodes r =
      (node : NodeAllocation F) × Memᴰ node nodes
      × (node.node_id ≢ protected_node)
      × (r ≡ (measure fl metric node, node.node_id))

  next_best-IsPicked :
      (metric : Metric) (protected_node : String) (node : NodeAllocation F) (best : F × String)
      → IsMeasured fl metric
      → (next_best fl metric protected_node node best ≡ best)
        ⊎ ((node.node_id ≢ protected_node)
            × (next_best fl metric protected_node node best
                ≡ (measure fl metric node, node.node_id)))
  unfolding next_best
  next_best-IsPicked metric p node best m = elim (string_eq.dec node.node_id p) [
    | yes same ↦ inl (ground (arith, same))
    | no other ↦ elim (Bool-cases (fl.eq best.0 fl.zero || fl.lt (measure fl metric node) best.0)) [
      | inl e ↦ inr (other, ground (arith, other, e, consider_lem fl metric node best m))
      | inr e ↦ inl (ground (arith, other, e, consider_lem fl metric node best m))
    ]
  ]

  least_loop-IsPicked :
      (metric : Metric) (protected_node : String) (nodes : List (NodeAllocation F))
      (best : F × String)
      → IsMeasured fl metric
      → let r = least_loop fl metric protected_node nodes best in
        (r ≡ best) ⊎ IsPicked metric protected_node nodes r
  unfolding least_loop next_best
  least_loop-IsPicked metric p [] best m = inl refl
  least_loop-IsPicked metric p (node ∷ nodes) best m =
      elim (least_loop-IsPicked metric p nodes
        (if node.node_id == p then best else consider fl metric node best) m) [
          | inr (x, h, other, e) ↦ inr (x, Memᴰ.tail h, other, e)
          | inl e ↦ elim (next_best-IsPicked metric p node best m) [
            | inl kept ↦ inl (e ∙ kept)
            | inr (other, new) ↦ inr (node, Memᴰ.head refl, other, e ∙ new)
          ]
        ]

  -- The node that is picked: unprotected, with no unprotected node below it.
  abbrev pub IsLeast : Metric → String → List (NodeAllocation F) → String → Type 0
  IsLeast metric protected_node nodes id =
      (node : NodeAllocation F) × Memᴰ node nodes
      × (node.node_id ≢ protected_node)
      × (id ≡ node.node_id)
      × IsLowest fl metric protected_node nodes (measure fl metric node)

  first_picked :
      (o : IsOrdered fl) (metric : Metric) (protected_node : String) (first : NodeAllocation F)
      (nodes : List (NodeAllocation F))
      → IsMeasured fl metric
      → first.node_id ≢ protected_node
      → AllShared fl metric protected_node (first ∷ nodes)
      → IsLeast metric protected_node
          (first ∷ nodes)
          (least_loop fl metric protected_node nodes (measure fl metric first, first.node_id)).1
  first_picked o metric p first nodes m real shared =
      let start : F × String = (measure fl metric first, first.node_id) in
      let r = least_loop fl metric p nodes start in
      let (s, low, lowest) =
        least_loop-IsLowest fl o metric p nodes start m (shared first (Memᴰ.head refl) real)
          (λ x h. shared x (Memᴰ.tail h)) in
      elim (least_loop-IsPicked metric p nodes start m) [
        | inl e ↦ (
          first,
          Memᴰ.head refl,
          real,
          ap (λ t. t.1) e,
          subst (λ l. IsLowest fl metric p (first ∷ nodes) l) (ap (λ t. t.0) e)
              (all r.0 low lowest),
        )
        | inr (x, h, other, e) ↦ (
          x,
          Memᴰ.tail h,
          other,
          ap (λ t. t.1) e,
          subst (λ l. IsLowest fl metric p (first ∷ nodes) l) (ap (λ t. t.0) e)
              (all r.0 low lowest),
        )
      ]
    where
      all :
          (l : F)
          → fl.lt (measure fl metric first) l ≡ false
          → IsLowest fl metric p nodes l
          → IsLowest fl metric p (first ∷ nodes) l
      all l low lowest x (Memᴰ.head e) other = ap (λ t. fl.lt (measure fl metric t) l) e ∙ low
      all l low lowest x (Memᴰ.tail h) other = lowest x h other

  least_loop-IsLeast :
      (o : IsOrdered fl) (metric : Metric) (protected_node : String)
      (nodes : List (NodeAllocation F)) (some_node : NodeAllocation F)
      → IsMeasured fl metric
      → fl.eq fl.zero fl.zero ≡ true
      → AllShared fl metric protected_node nodes
      → Memᴰ some_node nodes
      → some_node.node_id ≢ protected_node
      → IsLeast metric protected_node nodes
          (least_loop fl metric protected_node nodes (fl.zero, "")).1
  unfolding least_loop
  least_loop-IsLeast o metric p [] x m z shared h real = elim h [ ]
  least_loop-IsLeast o metric p (node ∷ nodes) x m z shared h real =
      elim (string_eq.dec node.node_id p) [
        | no other ↦
            let e : (if node.node_id == p
                  then (fl.zero, "")
                  else consider fl metric node (fl.zero, ""))
                ≡ (measure fl metric node, node.node_id) =
              ground (arith, other, z, consider_lem fl metric node (fl.zero, "") m) in
            subst
              (λ (b : F × String).
                IsLeast metric p (node ∷ nodes) (least_loop fl metric p nodes b).1)
              (sym e) (first_picked o metric p node nodes m other shared)
        | yes same ↦
            let e : (if node.node_id == p
                  then (fl.zero, "")
                  else consider fl metric node (fl.zero, ""))
                ≡ (fl.zero, "") =
              ground (arith, same) in
            subst
              (λ (b : F × String).
                IsLeast metric p (node ∷ nodes) (least_loop fl metric p nodes b).1)
              (sym e)
              (add same (
                least_loop-IsLeast o metric p nodes x m z (λ y k. shared y (Memᴰ.tail k))
                  (inside same h) real))
      ]
    where
      inside : node.node_id ≡ p → Memᴰ x (node ∷ nodes) → Memᴰ x nodes
      inside same (Memᴰ.head e) = absurd (real (ap (λ t. t.node_id) e ∙ same))
      inside same (Memᴰ.tail k) = k

      beyond :
          (l : F)
          → node.node_id ≡ p
          → IsLowest fl metric p nodes l
          → IsLowest fl metric p (node ∷ nodes) l
      beyond l same lowest y (Memᴰ.head e) other = absurd (other (ap (λ t. t.node_id) e ∙ same))
      beyond l same lowest y (Memᴰ.tail k) other = lowest y k other

      add :
          {id : String}
          → node.node_id ≡ p
          → IsLeast metric p nodes id
          → IsLeast metric p (node ∷ nodes) id
      add same (y, k, other, e, lowest) =
          (y, Memᴰ.tail k, other, e, beyond (measure fl metric y) same lowest)

  -- Over numbers that are ordered as IEEE 754 has it, and where the share of each unprotected node is a
  -- number other than 0 and there is such a node, `LeastAllocatedNode` picks for CPU, memory or disk an
  -- unprotected node of the pool, with a share that no unprotected node is below.
  pub least_allocated_node-IsLeast :
      {W : Type 0} (n : NomadCapacity W) (o : IsOrdered fl) (c : ClusterCapacity F)
      (protected_node : String) (node : NodeAllocation F) (w : W)
      → IsMeasured fl c.scaling_metric.type
      → fl.eq fl.zero fl.zero ≡ true
      → AllShared fl c.scaling_metric.type protected_node c.node_allocations
      → Memᴰ node c.node_allocations
      → node.node_id ≢ protected_node
      → IsLeast c.scaling_metric.type protected_node c.node_allocations
          (least_allocated_node fl n c protected_node w).1.0
  unfolding least_allocated_node
  least_allocated_node-IsLeast n o c p node w m z shared h real =
      least_loop-IsLeast o c.scaling_metric.type p c.node_allocations node m z shared h real

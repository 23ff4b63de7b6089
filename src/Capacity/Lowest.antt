-- ===== src/Capacity/Lowest.antt =====
-- The share that `LeastAllocatedNode` compares the nodes by.
use mathlib.Core.List.{Memᴰ}
use replicator.Base.{
  String, true, false, ◌≡◌, ◌≢◌, refl, ap, ◌∙◌, ◌⊎◌, inl, inr, List, [], ◌∷◌, arith, if◌then◌else◌,
  ◌==◌, ◌||◌, string_eq, Bool-cases,
}
use replicator.Floats.{Floats, IsOrdered}
use replicator.Structs.{NodeAllocation, Metric, disk, memory, processor}
use replicator.Capacity.Limits.{consider, least_loop}

module _ {F : Type 0} (fl : Floats F) where
  -- A share that is a number and is not 0.
  abbrev pub IsShare : F → Type 0
  IsShare x = (fl.eq x x ≡ true) × (fl.eq x fl.zero ≡ false)

  -- The share of a node for a metric that is measured.
  abbrev pub measure : Metric → NodeAllocation F → F
  measure memory node = node.used_capacity.memory_percent
  measure disk node = node.used_capacity.disk_percent
  measure _ node = node.used_capacity.cpu_percent

  abbrev pub IsMeasured : Metric → Type 0
  IsMeasured metric = (metric ≡ processor) ⊎ ((metric ≡ memory) ⊎ (metric ≡ disk))

  pub consider_lem :
      (metric : Metric) (node : NodeAllocation F) (best : F × String)
      → IsMeasured metric
      → consider fl metric node best ≡ (
          if fl.eq best.0 fl.zero || fl.lt (measure metric node) best.0
          then (measure metric node, node.node_id)
          else best)
  unfolding consider
  consider_lem Metric.none_used node best m = ground arith
  consider_lem disk node best m = refl
  consider_lem memory node best m = refl
  consider_lem processor node best m = refl
  consider_lem Metric.unset node best m = ground arith

  abbrev pub IsLowest : Metric → String → List (NodeAllocation F) → F → Type 0
  IsLowest metric protected_node nodes l =
      (node : NodeAllocation F)
      → Memᴰ node nodes
      → node.node_id ≢ protected_node
      → fl.lt (measure metric node) l ≡ false

  -- Every unprotected node has a share.
  abbrev pub AllShared : Metric → String → List (NodeAllocation F) → Type 0
  AllShared metric protected_node nodes =
      (node : NodeAllocation F)
      → Memᴰ node nodes
      → node.node_id ≢ protected_node
      → IsShare (measure metric node)

  not_below :
      (o : IsOrdered fl) (x y l : F)
      → fl.eq y y ≡ true
      → fl.eq l l ≡ true
      → fl.lt x y ≡ false
      → fl.lt y l ≡ false
      → fl.lt x l ≡ false
  not_below o x y l ny nl h k = elim (Bool-cases (fl.lt x l)) [
    | inr e ↦ e
    | inl e ↦ elim (o.lt_total l y nl ny) [
      | inl below ↦ absurd (ground (arith, o.lt_trans x l y e below))
      | inr rest ↦ elim rest [
        | inl same ↦ absurd (ground (arith, o.lt_eq x l y e same))
        | inr above ↦ absurd (ground arith)
      ]
    ]
  ]

  unfoldable pub next_best : Metric → String → NodeAllocation F → F × String → F × String
  next_best metric protected_node node best =
      if node.node_id == protected_node then best else consider fl metric node best

  next_best_lem :
      (o : IsOrdered fl) (metric : Metric) (protected_node : String) (node : NodeAllocation F)
      (best : F × String)
      → IsMeasured metric
      → IsShare best.0
      → (node.node_id ≢ protected_node → IsShare (measure metric node))
      → let l = (next_best metric protected_node node best).0 in
        IsShare l
        × (fl.lt best.0 l ≡ false)
        × (node.node_id ≢ protected_node → fl.lt (measure metric node) l ≡ false)
  unfolding next_best
  next_best_lem o metric p node best m b share = elim (string_eq.dec node.node_id p) [
    | yes same ↦
        let e : next_best metric p node best ≡ best = ground (arith, same) in
        rw e (b, o.lt_irrefl best.0, λ other. absurd (other same))
    | no other ↦ elim (Bool-cases (fl.lt (measure metric node) best.0)) [
      | inl below ↦
          let e : next_best metric p node best ≡ (measure metric node, node.node_id) =
            ground (arith, other, below, consider_lem metric node best m) in
          rw e (share other, above below, λ differs. o.lt_irrefl (measure metric node))
      | inr over ↦
          let e : next_best metric p node best ≡ best =
            ground (arith, other, over, b.1, consider_lem metric node best m) in
          rw e (b, o.lt_irrefl best.0, λ differs. over)
    ]
  ]
    where
      above : fl.lt (measure metric node) best.0 ≡ true → fl.lt best.0 (measure metric node) ≡ false
      above below =
          ground (arith, below, o.lt_trans best.0 (measure metric node) best.0, o.lt_irrefl best.0)

  pub least_loop-IsLowest :
      (o : IsOrdered fl) (metric : Metric) (protected_node : String)
      (nodes : List (NodeAllocation F)) (best : F × String)
      → IsMeasured metric
      → IsShare best.0
      → AllShared metric protected_node nodes
      → let l = (least_loop fl metric protected_node nodes best).0 in
        IsShare l × (fl.lt best.0 l ≡ false) × IsLowest metric protected_node nodes l
  unfolding least_loop next_best
  least_loop-IsLowest o metric p [] best m b shared = (b, o.lt_irrefl best.0, λ node h. elim h [ ])
  least_loop-IsLowest o metric p (node ∷ nodes) best m b shared =
      let (b', low, head_low) =
        next_best_lem o metric p node best m b (shared node (Memᴰ.head refl)) in
      let (s, low', rest) =
        least_loop-IsLowest o metric p nodes
          (if node.node_id == p then best else consider fl metric node best) m b'
          (λ x h. shared x (Memᴰ.tail h)) in
      (
        s,
        not_below o _ _ _ b'.0 s.0 low low',
        λ x h other.
            pick x h other (λ same. not_below o _ _ _ b'.0 s.0 (head_low same) low') (rest x),
      )
    where
      pick :
          (x : NodeAllocation F)
          → Memᴰ x (node ∷ nodes)
          → x.node_id ≢ p
          → (node.node_id ≢ p
              → fl.lt (measure metric node) (least_loop fl metric p (node ∷ nodes) best).0 ≡ false)
          → (Memᴰ x nodes
              → x.node_id ≢ p
              → fl.lt (measure metric x) (least_loop fl metric p (node ∷ nodes) best).0 ≡ false)
          → fl.lt (measure metric x) (least_loop fl metric p (node ∷ nodes) best).0 ≡ false
      pick x (Memᴰ.head e) other first rest =
          ap (λ t. fl.lt (measure metric t) (least_loop fl metric p (node ∷ nodes) best).0) e
          ∙ first (λ same. other (ap (λ t. t.node_id) e ∙ same))
      pick x (Memᴰ.tail h) other first rest = rest h other

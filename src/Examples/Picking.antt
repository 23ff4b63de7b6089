-- ===== src/Examples/Picking.antt =====
-- The least allocated of two nodes.
use mathlib.Core.List.{Memᴰ}
use mathlib.Core.Path.{subst}
use replicator.Base.{
  ℕ, String, ◌≡◌, refl, sym, inl, inr, Option, some, List, [], ◌∷◌, string_eq, nat_eq,
}
use replicator.Base.Int.{pos}
use replicator.Structs.{
  NodeAllocation, ClusterCapacity, new_cluster_capacity, no_resources, processor,
}
use replicator.Capacity.Limits.{least_loop, least_allocated_node}
use replicator.Capacity.Lowest.{IsShare, measure, AllShared}
use replicator.Capacity.Idle.{least_loop_idle}
use replicator.Capacity.Picked.{IsLeast, least_allocated_node-IsLeast}
use replicator.Examples.Concrete.{new_world, numbers, numbers-IsOrdered, capacity_api}

abbrev node_with : String → ℕ → NodeAllocation (Option ℕ)
node_with id share = record {
  node_id = id;
  used_capacity = record (no_resources (Option ℕ) (some 0)) { cpu_percent = some share };
}

abbrev nodes : List (NodeAllocation (Option ℕ))
nodes = node_with "n1" 33 ∷ node_with "n" 12 ∷ []

abbrev capacity : ClusterCapacity (Option ℕ)
capacity = record (new_cluster_capacity (Option ℕ) (some 0)) {
  scaling_metric = record { type = processor; capacity = pos 0; utilization = pos 0 };
  node_allocations = nodes;
}

nodes-AllShared : AllShared numbers processor "n10" nodes
unfolding nat_eq
nodes-AllShared x (Memᴰ.head e) other =
    subst (λ t. IsShare numbers (measure numbers processor t)) (sym e) (refl, refl)
nodes-AllShared x (Memᴰ.tail (Memᴰ.head e)) other =
    subst (λ t. IsShare numbers (measure numbers processor t)) (sym e) (refl, refl)
nodes-AllShared x (Memᴰ.tail (Memᴰ.tail h)) other = elim h [ ]

least_allocated_node-IsLeast_example :
    IsLeast numbers processor "n10" nodes
      (least_allocated_node numbers capacity_api capacity "n10" new_world).1.0
unfolding nat_eq new_cluster_capacity
least_allocated_node-IsLeast_example =
    least_allocated_node-IsLeast numbers capacity_api numbers-IsOrdered capacity "n10"
      (node_with "n1" 33) new_world (inl refl) refl nodes-AllShared (Memᴰ.head refl) (λ e. cc)

least_loop_idle_example :
    least_loop numbers processor "n10"
      (node_with "n3" 5 ∷ node_with "n1" 0 ∷ node_with "n10" 2 ∷ node_with "n" 12 ∷ [])
      (some 0, "")
    ≡ least_loop numbers processor "n10" [] (some 12, "n")
unfolding nat_eq
least_loop_idle_example =
    least_loop_idle numbers numbers-IsOrdered processor "n10" (inl refl) (node_with "n3" 5 ∷ [])
      (node_with "n10" 2 ∷ []) [] (node_with "n1" 0) (node_with "n" 12) refl
      ((λ other. inr refl), tt) refl (λ e. cc) (refl, tt) (λ e. cc)

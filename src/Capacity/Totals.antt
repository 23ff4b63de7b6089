-- ===== src/Capacity/Totals.antt =====
-- The measured totals, and that a populated pool is evaluated without a panic.
use replicator.Base.{ℕ, ◌+◌, ◌<◌, ◌≡◌, refl, ap, ◌∙◌, List, [], ◌∷◌, arith, length, All}
use replicator.Base.Dict.{values}
use replicator.Base.Int.{ℤ, pos, negsuc, pos_part, neg_part, add_int}
use replicator.Base.Int.Exact.{add_int-pos}
use replicator.Floats.{Floats}
use replicator.Structs.{
  Node, WorkerPool, AllocationResources, ClusterCapacity, new_cluster_capacity,
}
use replicator.Capacity.{count_node, count_nodes, calculate_pool_capacity}

-- Sums of natural amounts.
abbrev pub sum_of {ℓ} : {A : Type ℓ} → (A → ℕ) → List A → ℕ
sum_of f [] = 0
sum_of f (x ∷ xs) = f x + sum_of f xs

-- An amount that is not negative.
abbrev IsNatural : ℤ → Type 0
IsNatural a = neg_part a ≡ 0

add_int-natural :
    (a b : ℤ) (n : ℕ)
    → a ≡ pos n
    → IsNatural b
    → n + pos_part b < 9223372036854775808
    → add_int a b ≡ pos (n + pos_part b)
add_int-natural a (pos b) n h _ k = ap (λ x. add_int x (pos b)) h ∙ add_int-pos n b k
add_int-natural a (negsuc b) n h e k = absurd (omega arith)

module _ {F : Type 0} (fl : Floats F) where
  pub count_nodes-node_count :
      (c : ClusterCapacity F) (nodes : List Node) (n : ℕ)
      → c.node_count ≡ pos n
      → n + length nodes < 9223372036854775808
      → (count_nodes fl c nodes).node_count ≡ pos (n + length nodes)
  unfolding count_nodes
  count_nodes-node_count c [] n h b = h ∙ ap pos (omega arith)
  count_nodes-node_count c (node ∷ nodes) n h b =
      count_nodes-node_count (count_node fl c node) nodes (n + 1)
        (ap (λ k. add_int k (pos 1)) h ∙ add_int-pos n 1 (omega arith)) (omega arith)
      ∙ ap pos (omega arith)

  -- One component of the total, by the field of the node that it adds up.
  module _ (component : AllocationResources F → ℤ) (field : Node → ℤ)
      (adds : (c : ClusterCapacity F) (node : Node)
        → component (count_node fl c node).total_capacity
          ≡ add_int (component c.total_capacity) (field node)) where
    count_nodes-total :
        (c : ClusterCapacity F) (nodes : List Node) (n : ℕ)
        → component c.total_capacity ≡ pos n
        → All (λ node. IsNatural (field node)) nodes
        → n + sum_of (λ node. pos_part (field node)) nodes < 9223372036854775808
        → component (count_nodes fl c nodes).total_capacity
          ≡ pos (n + sum_of (λ node. pos_part (field node)) nodes)
    unfolding count_nodes
    count_nodes-total c [] n h _ b = h ∙ ap pos (omega arith)
    count_nodes-total c (node ∷ nodes) n h (natural, rest) b =
        count_nodes-total (count_node fl c node) nodes (n + pos_part (field node))
          (adds c node ∙ add_int-natural _ (field node) n h natural (omega arith)) rest
          (omega arith)
        ∙ ap pos (omega arith)

  -- `calculatePoolCapacity` counts the nodes of the pool and adds up their CPU, memory and disk, if
  -- none is negative and 64 bits hold the count and the sums.
  calculate_pool_capacity_lem :
      (pool : WorkerPool)
      → let nodes = values pool.nodes in
        let c = calculate_pool_capacity fl (new_cluster_capacity F fl.zero) pool in
        length nodes < 9223372036854775808
        → All (λ node. IsNatural node.cpu) nodes
        → All (λ node. IsNatural node.memory_mb) nodes
        → All (λ node. IsNatural node.disk_mb) nodes
        → sum_of (λ node. pos_part node.cpu) nodes < 9223372036854775808
        → sum_of (λ node. pos_part node.memory_mb) nodes < 9223372036854775808
        → sum_of (λ node. pos_part node.disk_mb) nodes < 9223372036854775808
        → (c.node_count ≡ pos (length nodes))
          × (c.total_capacity.cpu_mhz ≡ pos (sum_of (λ node. pos_part node.cpu) nodes))
          × (c.total_capacity.memory_mb ≡ pos (sum_of (λ node. pos_part node.memory_mb) nodes))
          × (c.total_capacity.disk_mb ≡ pos (sum_of (λ node. pos_part node.disk_mb) nodes))
  unfolding calculate_pool_capacity new_cluster_capacity
  calculate_pool_capacity_lem pool few cpu mem dsk bc bm bd = (
    count_nodes-node_count (new_cluster_capacity F fl.zero) (values pool.nodes) 0 refl (omega arith)
        ∙ ap pos (omega arith),
    count_nodes-total (λ r. r.cpu_mhz) (λ n. n.cpu) (λ c n. refl) _ (values pool.nodes) 0 refl cpu
          (omega arith)
        ∙ ap pos (omega arith),
    count_nodes-total (λ r. r.memory_mb) (λ n. n.memory_mb) (λ c n. refl) _ (values pool.nodes) 0
          refl mem (omega arith)
        ∙ ap pos (omega arith),
    count_nodes-total (λ r. r.disk_mb) (λ n. n.disk_mb) (λ c n. refl) _ (values pool.nodes) 0 refl
          dsk (omega arith)
        ∙ ap pos (omega arith),
  )

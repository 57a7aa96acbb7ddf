-- ===== src/TreeMap/Depth.antt =====
-- How deep the tree is (near-sdk/src/store/tree_map/mod.rs).
use near_runtime_rs.Base.{◌+◌, ◌<◌, ◌*◌, ◌^◌, ◌≡◌, ◌≤◌, List, arith, ap, ◌∙◌, u32_size}
use near_runtime_rs.FreeList.Defs.{FreeListIndex, list_len}
use near_runtime_rs.TreeMap.Ord.{Ord}
use near_runtime_rs.TreeMap.Tree.{Tree, height_of}
use near_runtime_rs.TreeMap.Shape.{Shape, height, size}
use near_runtime_rs.TreeMap.Represents.{height_of-link}
use near_runtime_rs.TreeMap.Height.{height_bound, height-le-64}
use near_runtime_rs.TreeMap.Count.{Full-count}
use near_runtime_rs.TreeMap.InsertKeys.{IsTree}

module _ {K : Type 0} ⦃o : Ord K⦄ (t : Tree K) (s : Shape K) (free : List FreeListIndex)
    (v : IsTree t s free) where
  stored_height : height_of t.root t.nodes ≡ height s
  stored_height = ap (λ r. height_of r t.nodes) v.root ∙ height_of-link t.nodes s v.represents

  -- In a valid tree, two to the stored height is at most the square of one more than the number of
  -- keys, and the stored height is at most 64.
  pub stored_depth_bound :
      (2 ^ height_of t.root t.nodes ≤ (list_len t.nodes + 1) * (list_len t.nodes + 1))
      × (height_of t.root t.nodes ≤ 64)
  unfolding list_len
  stored_depth_bound =
      let count = Full-count t.nodes s free v.represents v.unique v.full v.slots in
      let fits : size s < u32_size =
        omega (arith, count, v.slots.count, v.slots.total, v.slots.bound) in
      let bound = height_bound s v.avl in
      let low = height-le-64 s v.avl fits in ground (arith, stored_height, count, bound, low)

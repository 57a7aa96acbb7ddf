-- ===== src/TreeMap/RemoveRight.antt =====
-- The removal of a key with a right subtree that is higher than the left one
-- (near-sdk/src/store/tree_map/mod.rs, do_remove).
use near_runtime_rs.Base.{
  List, ◌+◌, ◌≡◌, ◌≢◌, ◌<◌, Option, none, some, done, arith, refl, ap, max, u32_size, inl, inr,
}
use near_runtime_rs.FreeList.Defs.{FreeListIndex}
use near_runtime_rs.TreeMap.Ord.{Ord}
use near_runtime_rs.TreeMap.Tree.{Node, Nodes, Tree, fuel_at, height_of}
use near_runtime_rs.TreeMap.Shape.{Shape, leaf, branch, height, link, keys}
use near_runtime_rs.TreeMap.Slots.{put, put-IsFreeList}
use near_runtime_rs.TreeMap.Balance.{write_node, update_height}
use near_runtime_rs.TreeMap.Represents.{node_of, height_of-link, update_height_lem, write_node_lem}
use near_runtime_rs.TreeMap.SortedKeys.{Sorted-halves}
use near_runtime_rs.TreeMap.InsertKeys.{IsTree}
use near_runtime_rs.TreeMap.Remove.{min_at, remove_node, rebalance}
use near_runtime_rs.TreeMap.DoRemove.{remove_by_right}
use near_runtime_rs.TreeMap.Place.{At, replace, Represents-At, Sorted-At}
use near_runtime_rs.TreeMap.Rebalance.{rebalance_lem}
use near_runtime_rs.TreeMap.Least.{First, min_stop, min_lem}
use near_runtime_rs.TreeMap.Taking.{remove_node_lem}
use near_runtime_rs.TreeMap.ByRight as ByRight
use near_runtime_rs.TreeMap.ByRightDeep as ByRightDeep
use near_runtime_rs.TreeMap.RemoveLeft.{Gone, finished, small, height-At}

module _ {K : Type 0} ⦃o : Ord K⦄ where
  direct_run :
      (root root' : Option FreeListIndex) (i li mid : FreeListIndex) (n seen moved n' : Node K)
      (h h1 h2 h3 : Nodes K)
      → n.rgt ≡ some li
      → min_at li h ≡ done (some ((mid, seen), none))
      → remove_node mid h ≡ done (moved, h1)
      → update_height (record n { key = moved.key; rgt = moved.rgt }) i h1 ≡ done (n', h2)
      → rebalance root n'.key h2 ≡ done (root', h3)
      → remove_by_right root i n h ≡ done ((n.key, root'), h3)
  unfolding remove_by_right
  direct_run root root' i li mid n seen moved n' h h1 h2 h3 a b c d e =
      ground (arith, a, b, c, d, e)

  deep_run :
      (root root' : Option FreeListIndex) (i li mid pid : FreeListIndex)
      (n seen p moved p' : Node K) (h h1 h2 h3 h4 : Nodes K)
      → n.rgt ≡ some li
      → min_at li h ≡ done (some ((mid, seen), some (pid, p)))
      → remove_node mid h ≡ done (moved, h1)
      → update_height (record p { lft = moved.rgt }) pid h1 ≡ done (p', h2)
      → write_node i (record n { key = moved.key }) h2 ≡ done (tt, h3)
      → rebalance root p'.key h3 ≡ done (root', h4)
      → remove_by_right root i n h ≡ done ((n.key, root'), h4)
  unfolding remove_by_right
  deep_run root root' i li mid pid n seen p moved p' h h1 h2 h3 h4 a b c d e f =
      ground (arith, a, b, c, d, e, f)

  module _ (t : Tree K) (s : Shape K) (free : List FreeListIndex) (v : IsTree t s free)
      (i : FreeListIndex) (key : K) where
    right_direct :
        (ri : FreeListIndex) (rk : K) (l rr : Shape K)
        → At key (branch i key l (branch ri rk leaf rr)) s
        → Gone s key (remove_by_right (link s) i (node_of key l (branch ri rk leaf rr)) t.nodes)
    unfolding min_at
    right_direct ri rk l rr p =
        let whole : Shape K = branch i key l (branch ri rk leaf rr) in
        let e = Represents-At key t.nodes whole s p v.represents in
        let c = remove_node_lem t.nodes free ri (node_of rk leaf rr) v.slots e.2.0 in
        let taken =
          ByRight.taken t.nodes s free i key ri rk l rr p v.represents v.unique v.sorted v.avl
            (node_of rk leaf rr) c in
        let at =
          ByRight.old t.nodes s free i key ri rk l rr p v.represents v.unique v.sorted v.avl
            (node_of rk leaf rr) c in
        let el =
          ByRight.left_before t.nodes s free i key ri rk l rr p v.represents v.unique v.sorted v.avl
            (node_of rk leaf rr) c in
        let er =
          ByRight.right_before t.nodes s free i key ri rk l rr p v.represents v.unique v.sorted
            v.avl (node_of rk leaf rr) c in
        let written =
          update_height_lem c.after i (node_of key l (branch ri rk leaf rr)) rk l rr
            (1 + max (height l) (height (branch ri rk leaf rr))) at el er
            (omega (arith, small t s free v i key key whole p)) in
        let near = put i (node_of rk l rr) c.after in
        let wf =
          put-IsFreeList i (node_of key l (branch ri rk leaf rr)) (node_of rk l rr) c.after c.free
            at c.valid in
        let b =
          rebalance_lem t s free near c.free key rk key ri whole (branch i rk l rr) v wf taken in
        finished t s free near c.free key rk key ri whole (branch i rk l rr) v taken
          (ByRight.slot_gone t.nodes s free i key ri rk l rr p v.represents v.unique v.sorted v.avl
            (node_of rk leaf rr) c)
          b
          (direct_run (link s) (link b.shape) i ri ri (node_of key l (branch ri rk leaf rr))
            (node_of rk leaf rr) (node_of rk leaf rr) (node_of rk l rr) t.nodes c.after near b.after
            refl (min_stop (height_of (some ri) t.nodes) t.nodes ri none rk rr e.2.0) c.returns
            written b.returns)

    small_parent :
        (ri : FreeListIndex) (rk : K) (l rl rr : Shape K)
        → At key (branch i key l (branch ri rk rl rr)) s
        → (w : First t.nodes (branch ri rk rl rr) (min_at ri t.nodes))
        → 1 + max (height w.mr) (height w.pr) < u32_size
    small_parent ri rk l rl rr p w = omega (
      arith,
      small t s free v i key key (branch i key l (branch ri rk rl rr)) p,
      height-At w.pk (branch w.pid w.pk (branch w.mid w.mk leaf w.mr) w.pr) (branch ri rk rl rr)
          w.place,
    )

    right_deep :
        (ri : FreeListIndex) (rk : K) (l rl rr : Shape K)
        → At key (branch i key l (branch ri rk rl rr)) s
        → First t.nodes (branch ri rk rl rr) (min_at ri t.nodes)
        → Gone s key (remove_by_right (link s) i (node_of key l (branch ri rk rl rr)) t.nodes)
    right_deep ri rk l rl rr p w =
        let r : Shape K = branch ri rk rl rr in
        let whole : Shape K = branch i key l r in
        let full : Shape K = branch w.pid w.pk (branch w.mid w.mk leaf w.mr) w.pr in
        let e = Represents-At key t.nodes whole s p v.represents in
        let ef = Represents-At w.pk t.nodes full r w.place e.2 in
        let c = remove_node_lem t.nodes free w.mid (node_of w.mk leaf w.mr) v.slots ef.1.0 in
        let taken =
          ByRightDeep.Taken-deep t.nodes s i key l r p v.represents v.unique v.sorted v.avl w c in
        let at =
          ByRightDeep.parent_old t.nodes s i key l r p v.represents v.unique v.sorted v.avl w c in
        let root_at =
          ByRightDeep.root_old t.nodes s i key l r p v.represents v.unique v.sorted v.avl w c in
        let el =
          ByRightDeep.left_before t.nodes s i key l r p v.represents v.unique v.sorted v.avl w c in
        let er =
          ByRightDeep.right_before t.nodes s i key l r p v.represents v.unique v.sorted v.avl w c in
        let written =
          update_height_lem c.after w.pid (node_of w.pk (branch w.mid w.mk leaf w.mr) w.pr) w.pk
            w.mr w.pr (1 + max (height (branch w.mid w.mk leaf w.mr)) (height w.pr)) at el er
            (small_parent ri rk l rl rr p w) in
        let h2 = put w.pid (node_of w.pk w.mr w.pr) c.after in
        let moved : Node K = record {
          key = w.mk;
          lft = link l;
          rgt = link r;
          ht = 1 + max (height l) (height r);
        } in
        let near = put i moved h2 in
        let wf2 =
          put-IsFreeList w.pid (node_of w.pk (branch w.mid w.mk leaf w.mr) w.pr)
            (node_of w.pk w.mr w.pr) c.after c.free at c.valid in
        let wf = put-IsFreeList i (node_of key l r) moved h2 c.free root_at wf2 in
        let new : Shape K = branch i w.mk l (replace w.pk (branch w.pid w.pk w.mr w.pr) r) in
        let b = rebalance_lem t s free near c.free key w.pk key w.mid whole new v wf taken in
        finished t s free near c.free key w.pk key w.mid whole new v taken
          (ByRightDeep.slot_gone t.nodes s i key l r p v.represents v.unique v.sorted v.avl w c) b
          (deep_run (link s) (link b.shape) i ri w.mid w.pid (node_of key l r)
            (node_of w.mk leaf w.mr) (node_of w.pk (branch w.mid w.mk leaf w.mr) w.pr)
            (node_of w.mk leaf w.mr) (node_of w.pk w.mr w.pr) t.nodes c.after h2 near b.after refl
            w.found c.returns written (write_node_lem h2 i (node_of key l r) moved root_at)
            b.returns)

    -- The removal of a key with a right subtree.
    pub remove_by_right_lem :
        (l r : Shape K)
        → At key (branch i key l r) s
        → r ≢ leaf
        → Gone s key (remove_by_right (link s) i (node_of key l r) t.nodes)
    unfolding min_at
    remove_by_right_lem l leaf p ne = absurd (ne refl)
    remove_by_right_lem l (branch ri rk leaf rr) p ne = right_direct ri rk l rr p
    remove_by_right_lem l (branch ri rk (branch j m x y) rr) p ne =
        let r : Shape K = branch ri rk (branch j m x y) rr in
        let e = Represents-At key t.nodes (branch i key l r) s p v.represents in
        let sort =
          Sorted-halves (keys l) key (keys r) (Sorted-At key (branch i key l r) s p v.sorted) in
        elim (min_lem (fuel_at ri t.nodes) t.nodes ri rk (branch j m x y) rr none e.2 sort.3
          (omega (arith, height_of-link t.nodes r e.2))) [
            | inl (is, run) ↦ absurd (ground (arith, ap height is))
            | inr w ↦ right_deep ri rk l (branch j m x y) rr p w
          ]

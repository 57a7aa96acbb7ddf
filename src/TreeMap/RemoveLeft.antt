-- ===== src/TreeMap/RemoveLeft.antt =====
-- The removal of a key with a left subtree that is at least as high as the right one
-- (near-sdk/src/store/tree_map/mod.rs, do_remove).
use near_runtime_rs.Base.{
  List, ◌+◌, ◌≡◌, ◌≢◌, ◌≤◌, ◌<◌, Option, none, some, Outcome, done, arith, refl, ap, ◌∙◌, max,
  u32_size, inl, inr,
}
use near_runtime_rs.FreeList.Defs.{FreeListIndex, get}
use near_runtime_rs.TreeMap.Ord.{Ord}
use near_runtime_rs.TreeMap.Tree.{Node, Nodes, Tree, Panic, fuel_at, height_of}
use near_runtime_rs.TreeMap.Shape.{Shape, leaf, branch, height, link, keys, occurs}
use near_runtime_rs.TreeMap.Slots.{put, put-IsFreeList}
use near_runtime_rs.TreeMap.Balance.{write_node, update_height}
use near_runtime_rs.TreeMap.Represents.{
  node_of, height-le-size, height_of-link, update_height_lem, write_node_lem,
}
use near_runtime_rs.TreeMap.SortedKeys.{Sorted-halves, erase}
use near_runtime_rs.TreeMap.Count.{Full-count}
use near_runtime_rs.TreeMap.InsertKeys.{IsTree}
use near_runtime_rs.TreeMap.Remove.{max_at, remove_node, rebalance}
use near_runtime_rs.TreeMap.DoRemove.{remove_by_left}
use near_runtime_rs.TreeMap.Place.{At, replace, size-replace, occurs-At, Represents-At, Sorted-At}
use near_runtime_rs.TreeMap.Rebalance.{Taken, Rebalanced, rebalance_lem, Rebalanced-IsTree}
use near_runtime_rs.TreeMap.Extreme.{Last, max_stop, max_lem}
use near_runtime_rs.TreeMap.Taking.{remove_node_lem}
use near_runtime_rs.TreeMap.ByLeft as ByLeft
use near_runtime_rs.TreeMap.ByLeftDeep as ByLeftDeep

module _ {K : Type 0} ⦃o : Ord K⦄ where
  -- A removal that returned the key, with a valid tree that lacks it.
  pub record Gone (s : Shape K) (key : K)
      (run : Outcome Panic ((K × Option FreeListIndex) × Nodes K)) : Type 0 where
    pub shape : Shape K
    pub nodes : Nodes K
    pub free : List FreeListIndex
    pub returns : run ≡ done ((key, link shape), nodes)
    pub valid : IsTree (record { root = link shape; nodes = nodes }) shape free
    pub erased : keys shape ≡ erase key (keys s)

  direct_run :
      (root root' : Option FreeListIndex) (i li mid : FreeListIndex) (n seen moved n' : Node K)
      (h h1 h2 h3 : Nodes K)
      → n.lft ≡ some li
      → max_at li h ≡ done (some ((mid, seen), none))
      → remove_node mid h ≡ done (moved, h1)
      → update_height (record n { key = moved.key; lft = moved.lft }) i h1 ≡ done (n', h2)
      → rebalance root n'.key h2 ≡ done (root', h3)
      → remove_by_left root i n h ≡ done ((n.key, root'), h3)
  unfolding remove_by_left
  direct_run root root' i li mid n seen moved n' h h1 h2 h3 a b c d e =
      ground (arith, a, b, c, d, e)

  deep_run :
      (root root' : Option FreeListIndex) (i li mid pid : FreeListIndex)
      (n seen p moved p' : Node K) (h h1 h2 h3 h4 : Nodes K)
      → n.lft ≡ some li
      → max_at li h ≡ done (some ((mid, seen), some (pid, p)))
      → remove_node mid h ≡ done (moved, h1)
      → update_height (record p { rgt = moved.lft }) pid h1 ≡ done (p', h2)
      → write_node i (record n { key = moved.key }) h2 ≡ done (tt, h3)
      → rebalance root p'.key h3 ≡ done (root', h4)
      → remove_by_left root i n h ≡ done ((n.key, root'), h4)
  unfolding remove_by_left
  deep_run root root' i li mid pid n seen p moved p' h h1 h2 h3 h4 a b c d e f =
      ground (arith, a, b, c, d, e, f)

  -- The rebalanced nodes near a removal, as a result.
  pub finished :
      (t : Tree K) (s : Shape K) (free : List FreeListIndex) (h' : Nodes K)
      (free' : List FreeListIndex) (a q key : K) (m : FreeListIndex) (sub new : Shape K)
      {run : Outcome Panic ((K × Option FreeListIndex) × Nodes K)}
      → IsTree t s free
      → Taken t.nodes h' s a q key m sub new
      → get m h' ≡ none
      → (b : Rebalanced s q key m h' free') → run ≡ done ((key, link b.shape), b.after)
      → Gone s key run
  finished t s free h' free' a q key m sub new v c gone b e = record {
    shape = b.shape;
    nodes = b.after;
    free = free';
    returns = e;
    valid =
        Rebalanced-IsTree t s free h' free' q key m b.after free' v b
          (λ j out. c.outside j (omega (arith, out, occurs-At a sub s j c.place))) b.valid
          (b.frame m (let bm = b.slots m in let um = v.unique m in ground (arith, bm, um)) ∙ gone)
          (λ j ne. refl);
    erased = b.erased;
  }

  pub height-At : (a : K) (sub t : Shape K) → At a sub t → height sub ≤ height t
  height-At a sub leaf p = absurd p
  height-At a sub (branch i k l r) (inl (eq, is)) = let same = ap height is in omega (arith, same)
  height-At a sub (branch i k l r) (inr (inl (eq, lt, p))) = omega (arith, height-At a sub l p)
  height-At a sub (branch i k l r) (inr (inr (eq, lt, p))) = omega (arith, height-At a sub r p)

  module _ (t : Tree K) (s : Shape K) (free : List FreeListIndex) (v : IsTree t s free)
      (i : FreeListIndex) (key : K) where
    pub small : (a : K) (sub : Shape K) → At a sub s → height sub < u32_size
    small a sub p = omega (
      arith,
      height-le-size sub,
      size-replace a sub leaf s p,
      Full-count t.nodes s free v.represents v.unique v.full v.slots,
      v.slots.count,
      v.slots.total,
      v.slots.bound,
    )

    pub once : (sub : Shape K) → At key sub s → (j : FreeListIndex) → occurs j sub ≤ 1
    once sub p j = let uj = v.unique j in omega (arith, uj, occurs-At key sub s j p)

    left_direct :
        (li : FreeListIndex) (lk : K) (ll r : Shape K)
        → At key (branch i key (branch li lk ll leaf) r) s
        → Gone s key (remove_by_left (link s) i (node_of key (branch li lk ll leaf) r) t.nodes)
    unfolding max_at
    left_direct li lk ll r p =
        let whole : Shape K = branch i key (branch li lk ll leaf) r in
        let e = Represents-At key t.nodes whole s p v.represents in
        let c = remove_node_lem t.nodes free li (node_of lk ll leaf) v.slots e.1.0 in
        let taken =
          ByLeft.taken t.nodes s free i key li lk ll r p v.represents v.unique v.sorted v.avl
            (node_of lk ll leaf) c in
        let at =
          ByLeft.old t.nodes s free i key li lk ll r p v.represents v.unique v.sorted v.avl
            (node_of lk ll leaf) c in
        let el =
          ByLeft.left_before t.nodes s free i key li lk ll r p v.represents v.unique v.sorted v.avl
            (node_of lk ll leaf) c in
        let er =
          ByLeft.right_before t.nodes s free i key li lk ll r p v.represents v.unique v.sorted v.avl
            (node_of lk ll leaf) c in
        let written =
          update_height_lem c.after i (node_of key (branch li lk ll leaf) r) lk ll r
            (1 + max (height (branch li lk ll leaf)) (height r)) at el er
            (omega (arith, small key whole p)) in
        let near = put i (node_of lk ll r) c.after in
        let wf =
          put-IsFreeList i (node_of key (branch li lk ll leaf) r) (node_of lk ll r) c.after c.free
            at c.valid in
        let b =
          rebalance_lem t s free near c.free key lk key li whole (branch i lk ll r) v wf taken in
        finished t s free near c.free key lk key li whole (branch i lk ll r) v taken
          (ByLeft.slot_gone t.nodes s free i key li lk ll r p v.represents v.unique v.sorted v.avl
            (node_of lk ll leaf) c)
          b
          (direct_run (link s) (link b.shape) i li li (node_of key (branch li lk ll leaf) r)
            (node_of lk ll leaf) (node_of lk ll leaf) (node_of lk ll r) t.nodes c.after near b.after
            refl (max_stop (height_of (some li) t.nodes) t.nodes li none lk ll e.1.0) c.returns
            written b.returns)

    small_parent :
        (li : FreeListIndex) (lk : K) (ll lr r : Shape K)
        → At key (branch i key (branch li lk ll lr) r) s
        → (w : Last t.nodes (branch li lk ll lr) (max_at li t.nodes))
        → 1 + max (height w.pl) (height w.ml) < u32_size
    small_parent li lk ll lr r p w = omega (
      arith,
      small key (branch i key (branch li lk ll lr) r) p,
      height-At w.pk (branch w.pid w.pk w.pl (branch w.mid w.mk w.ml leaf)) (branch li lk ll lr)
          w.place,
    )

    left_deep :
        (li : FreeListIndex) (lk : K) (ll lr r : Shape K)
        → At key (branch i key (branch li lk ll lr) r) s
        → Last t.nodes (branch li lk ll lr) (max_at li t.nodes)
        → Gone s key (remove_by_left (link s) i (node_of key (branch li lk ll lr) r) t.nodes)
    left_deep li lk ll lr r p w =
        let l : Shape K = branch li lk ll lr in
        let whole : Shape K = branch i key l r in
        let full : Shape K = branch w.pid w.pk w.pl (branch w.mid w.mk w.ml leaf) in
        let e = Represents-At key t.nodes whole s p v.represents in
        let ef = Represents-At w.pk t.nodes full l w.place e.1 in
        let c = remove_node_lem t.nodes free w.mid (node_of w.mk w.ml leaf) v.slots ef.2.0 in
        let taken =
          ByLeftDeep.Taken-deep t.nodes s i key l r p v.represents v.unique v.sorted v.avl w c in
        let at =
          ByLeftDeep.parent_old t.nodes s i key l r p v.represents v.unique v.sorted v.avl w c in
        let root_at =
          ByLeftDeep.root_old t.nodes s i key l r p v.represents v.unique v.sorted v.avl w c in
        let el =
          ByLeftDeep.left_before t.nodes s i key l r p v.represents v.unique v.sorted v.avl w c in
        let er =
          ByLeftDeep.right_before t.nodes s i key l r p v.represents v.unique v.sorted v.avl w c in
        let written =
          update_height_lem c.after w.pid (node_of w.pk w.pl (branch w.mid w.mk w.ml leaf)) w.pk
            w.pl w.ml (1 + max (height w.pl) (height (branch w.mid w.mk w.ml leaf))) at el er
            (small_parent li lk ll lr r p w) in
        let h2 = put w.pid (node_of w.pk w.pl w.ml) c.after in
        let moved : Node K = record {
          key = w.mk;
          lft = link l;
          rgt = link r;
          ht = 1 + max (height l) (height r);
        } in
        let near = put i moved h2 in
        let wf2 =
          put-IsFreeList w.pid (node_of w.pk w.pl (branch w.mid w.mk w.ml leaf))
            (node_of w.pk w.pl w.ml) c.after c.free at c.valid in
        let wf = put-IsFreeList i (node_of key l r) moved h2 c.free root_at wf2 in
        let new : Shape K = branch i w.mk (replace w.pk (branch w.pid w.pk w.pl w.ml) l) r in
        let b = rebalance_lem t s free near c.free key w.pk key w.mid whole new v wf taken in
        finished t s free near c.free key w.pk key w.mid whole new v taken
          (ByLeftDeep.slot_gone t.nodes s i key l r p v.represents v.unique v.sorted v.avl w c) b
          (deep_run (link s) (link b.shape) i li w.mid w.pid (node_of key l r)
            (node_of w.mk w.ml leaf) (node_of w.pk w.pl (branch w.mid w.mk w.ml leaf))
            (node_of w.mk w.ml leaf) (node_of w.pk w.pl w.ml) t.nodes c.after h2 near b.after refl
            w.found c.returns written (write_node_lem h2 i (node_of key l r) moved root_at)
            b.returns)

    -- The removal of a key with a left subtree.
    pub remove_by_left_lem :
        (l r : Shape K)
        → At key (branch i key l r) s
        → l ≢ leaf
        → Gone s key (remove_by_left (link s) i (node_of key l r) t.nodes)
    unfolding max_at
    remove_by_left_lem leaf r p ne = absurd (ne refl)
    remove_by_left_lem (branch li lk ll leaf) r p ne = left_direct li lk ll r p
    remove_by_left_lem (branch li lk ll (branch j m x y)) r p ne =
        let l : Shape K = branch li lk ll (branch j m x y) in
        let e = Represents-At key t.nodes (branch i key l r) s p v.represents in
        let sort =
          Sorted-halves (keys l) key (keys r) (Sorted-At key (branch i key l r) s p v.sorted) in
        elim (max_lem (fuel_at li t.nodes) t.nodes li lk ll (branch j m x y) none e.1 sort.0
          (omega (arith, height_of-link t.nodes l e.1))) [
            | inl (is, run) ↦ absurd (ground (arith, ap height is))
            | inr w ↦ left_deep li lk ll (branch j m x y) r p w
          ]

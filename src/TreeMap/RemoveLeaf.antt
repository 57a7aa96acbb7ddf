-- ===== src/TreeMap/RemoveLeaf.antt =====
-- The removal of a leaf (near-sdk/src/store/tree_map/mod.rs, do_remove).
use near_runtime_rs.Base.{
  List, [], ◌+◌, ◌≡◌, ◌≢◌, ◌≤◌, ◌==◌, true, if◌then◌else◌, Option, some, ◌∷◌, ◌++◌, done, arith,
  refl, sym, ap, ◌∙◌, subst, max, inl,
}
use near_runtime_rs.FreeList.Defs.{FreeListIndex, get}
use near_runtime_rs.FreeList.Invariant.{IsFreeList}
use near_runtime_rs.TreeMap.Ord.{Ord}
use near_runtime_rs.TreeMap.Tree.{Node, Nodes, Tree}
use near_runtime_rs.TreeMap.Shape.{Shape, leaf, branch, height, link, size, keys, occurs, balanced}
use near_runtime_rs.TreeMap.Slots.{put, put-IsFreeList, get-put_ne}
use near_runtime_rs.TreeMap.Balance.{update_height}
use near_runtime_rs.TreeMap.Represents.{
  node_of, Represents, height_of-link, update_height_lem, branch-Represents,
}
use near_runtime_rs.TreeMap.SortedKeys.{
  Sorted, Sorted-halves, has_key, has_key-append, erase, erase_right,
}
use near_runtime_rs.TreeMap.InsertKeys.{IsTree}
use near_runtime_rs.TreeMap.Remove.{Edge, left, right, remove_node, rebalance}
use near_runtime_rs.TreeMap.DoRemove.{remove_leaf, root_without, unlink}
use near_runtime_rs.TreeMap.Place.{At, occurs-At, Represents-At, Sorted-At, Avl-At, above_tests}
use near_runtime_rs.TreeMap.PlaceKeys.{Lowered, Lowered-left, Lowered-right, rebuilt_here}
use near_runtime_rs.TreeMap.Rebalance.{Taken, rebalance_lem, Rebalanced-IsTree}
use near_runtime_rs.TreeMap.Extreme.{has_key_root}
use near_runtime_rs.TreeMap.Taking.{remove_node_lem}
use near_runtime_rs.TreeMap.Lookup.{eq_swap, has_key_below}
use near_runtime_rs.TreeMap.ByLeft.{erase_middle}
use near_runtime_rs.TreeMap.RemoveLeft.{Gone, small}

module _ {K : Type 0} ⦃o : Ord K⦄ where
  root_without-link :
      (i : FreeListIndex) (t : Shape K) → occurs i t ≡ 0 → root_without i (link t) ≡ link t
  root_without-link i leaf z = refl
  root_without-link i (branch j k l r) z = ground (arith, z)

  leaf_run :
      (root root' : Option FreeListIndex) (i pid : FreeListIndex) (edge : Edge) (p p' n : Node K)
      (h h1 h2 h3 : Nodes K)
      → update_height (unlink edge p) pid h ≡ done (p', h1)
      → rebalance root p'.key h1 ≡ done (root', h2)
      → remove_node i h2 ≡ done (n, h3)
      → remove_leaf root i (some (pid, p, edge)) h ≡ done ((n.key, root_without i root'), h3)
  unfolding remove_leaf
  leaf_run root root' i pid edge p p' n h h1 h2 h3 a b c = ground (arith, a, b, c)

  -- The parent without the leaf on that side.
  abbrev pub without : Edge → FreeListIndex → K → Shape K → Shape K → Shape K
  without left pid pk pl pr = branch pid pk leaf pr
  without right pid pk pl pr = branch pid pk pl leaf

  abbrev pub with_leaf : Edge → FreeListIndex → K → FreeListIndex → K → Shape K → Shape K
  with_leaf left pid pk i key t = branch pid pk (branch i key leaf leaf) t
  with_leaf right pid pk i key t = branch pid pk t (branch i key leaf leaf)

  module _ (t : Tree K) (s : Shape K) (free : List FreeListIndex) (v : IsTree t s free)
      (i : FreeListIndex) (key : K) (pid : FreeListIndex) (pk : K) where
    -- The state in which the leaf is out of the tree but still in its slot.
    module _ (sub : Shape K) (pl pr : Shape K) (place : At pk sub s) (e : Represents t.nodes sub)
        (old : Node K) (at : get pid t.nodes ≡ some old)
        (parts : (j : FreeListIndex)
          → (if j == pid then 1 else 0) + (if j == i then 1 else 0) + occurs j pl + occurs j pr
            ≡ occurs j sub) where
      abbrev pub near : Nodes K
      near = put pid (node_of pk pl pr) t.nodes

      pub near_stands :
          Represents t.nodes pl → Represents t.nodes pr → Represents near (branch pid pk pl pr)
      near_stands el er =
          let up = v.unique pid in
          let pp = parts pid in
          let below = occurs-At pk sub s pid place in
          branch-Represents t.nodes pid old pk pl pr at el er (ground (arith, up, pp, below))
            (ground (arith, up, pp, below))

      pub leaf-Taken :
          Represents t.nodes pl
          → Represents t.nodes pr
          → link sub ≡ some pid
          → has_key pk (keys sub) ≡ true
          → has_key key (keys sub) ≡ true
          → keys (branch pid pk pl pr) ≡ erase key (keys sub)
          → size sub ≡ 2 + size pl + size pr
          → Lowered sub (balanced pid pk pl pr)
          → height (branch pid pk pl pr) ≤ height sub
          → Taken t.nodes near s pk pk key i sub (branch pid pk pl pr)
      leaf-Taken el er lk hp hk ks sz low lw =
          let n = near_stands el er in
          record {
            place = place;
            stale = (_, n.0, inl (o.eq_refl pk, n.1, n.2));
            linked = sym lk;
            pivot = hp;
            has = hk;
            erased = ks;
            slots = λ j. let pj = parts j in omega (arith, pj);
            fewer = omega (arith, sz);
            outside = λ j out.
                get-put_ne pid j old (node_of pk pl pr) t.nodes at
                  (λ p. let pj = parts j in ground (arith, p, pj, out));
            lowered = subst (Lowered sub) (sym (rebuilt_here pk pid pk pl pr (o.eq_refl pk))) low;
            not_higher = lw;
            fuel = omega (arith, height_of-link near (branch pid pk pl pr) n);
          }

    -- The rebalanced tree is a valid one once the slot of the leaf is empty.
    leaf_finish :
        (sub new : Shape K) (near : Nodes K) (edge : Edge) (p p' n : Node K)
        → Taken t.nodes near s pk pk key i sub new
        → IsFreeList near free
        → update_height (unlink edge p) pid t.nodes ≡ done (p', near)
        → p'.key ≡ pk
        → get i near ≡ some n
        → n.key ≡ key
        → Gone s key (remove_leaf (link s) i (some (pid, p, edge)) t.nodes)
    leaf_finish sub new near edge p p' n taken wf upd pkey got nkey =
        let b = rebalance_lem t s free near free pk pk key i sub new v wf taken in
        let bi = b.slots i in
        let ui = v.unique i in
        let out : occurs i b.shape ≡ 0 = ground (arith, bi, ui) in
        let c = remove_node_lem b.after free i n b.valid (b.frame i out ∙ got) in
        record {
          shape = b.shape;
          nodes = c.after;
          free = c.free;
          returns =
              leaf_run (link s) (link b.shape) i pid edge p p' n t.nodes near b.after c.after upd
                (ap (λ a. rebalance (link s) a near) pkey ∙ b.returns) c.returns
              ∙ ap (λ a. done ((a, root_without i (link b.shape)), c.after)) nkey
              ∙ ap (λ a. done ((key, a), c.after)) (root_without-link i b.shape out);
          valid =
              Rebalanced-IsTree t s free near free pk key i c.after c.free v b
                (λ j z. taken.outside j (omega (arith, z, occurs-At pk sub s j taken.place)))
                c.valid c.gone c.others;
          erased = b.erased;
        }

    -- The leaf is not its own parent.
    apart :
        (sub : Shape K)
        → At pk sub s
        → ((j : FreeListIndex)
            → (if j == pid then 1 else 0) + (if j == i then 1 else 0) ≤ occurs j sub)
        → i ≢ pid
    apart sub place both p =
        let ui = v.unique i in
        let bi = both i in ground (arith, p, ui, bi, occurs-At pk sub s i place)

    pub leaf_left :
        (pr : Shape K)
        → At pk (branch pid pk (branch i key leaf leaf) pr) s
        → Gone s key (
            remove_leaf
              (link s)
              i
              (some (pid, node_of pk (branch i key leaf leaf) pr, left))
              t.nodes)
    unfolding has_key
    leaf_left pr place =
        let sub : Shape K = branch pid pk (branch i key leaf leaf) pr in
        let e = Represents-At pk t.nodes sub s place v.represents in
        let old = node_of pk (branch i key leaf leaf) pr in
        let sort = Sorted-At pk sub s place v.sorted in
        let w = Avl-At pk sub s place v.avl in
        let taken =
          leaf-Taken sub leaf pr place e old e.0 (λ j. omega arith) tt e.2 refl
            (has_key_root pid pk (branch i key leaf leaf) pr) (ground (arith, o.eq_refl key))
            (sym (erase_middle [] key (pk ∷ keys pr) sort)) (omega arith)
            (Lowered-left pid pk (branch i key leaf leaf) leaf pr w
              (record { avl = tt; least = omega arith; most = omega arith }))
            (ground arith) in
        leaf_finish sub (branch pid pk leaf pr) (put pid (node_of pk leaf pr) t.nodes) left old
          (node_of pk leaf pr) (node_of key leaf leaf) taken
          (put-IsFreeList pid old (node_of pk leaf pr) t.nodes free e.0 v.slots)
          (update_height_lem t.nodes pid old pk leaf pr (1 + max 1 (height pr)) e.0 tt e.2
            (omega (arith, small t s free v pid key pk sub place)))
          refl
          (get-put_ne pid i old (node_of pk leaf pr) t.nodes e.0
              (apart sub place (λ _. omega arith))
            ∙ e.1.0)
          refl

    has_key-right :
        (pl : Shape K) → has_key key (keys (branch pid pk pl (branch i key leaf leaf))) ≡ true
    unfolding has_key
    has_key-right pl = ground (arith, has_key-append key (keys pl) (pk ∷ key ∷ []), o.eq_refl key)

    erased_right :
        (pl : Shape K)
        → Sorted (keys (branch pid pk pl (branch i key leaf leaf)))
        → keys (branch pid pk pl leaf)
          ≡ erase key (keys (branch pid pk pl (branch i key leaf leaf)))
    unfolding erase
    erased_right pl sort =
        let halves = Sorted-halves (keys pl) pk (key ∷ []) sort in
        let tests = above_tests pk key (key ∷ []) halves.2 (has_key_root i key leaf leaf) in
        ap (λ xs. keys pl ++ xs)
          (let ne = eq_swap key pk ∙ tests.0 in ground (arith, ne, o.eq_refl key))
        ∙ sym (
            erase_right key (keys pl) (pk ∷ key ∷ [])
              (has_key_below key pk (keys pl) halves.1 tests.1))

    pub leaf_right :
        (pl : Shape K)
        → At pk (branch pid pk pl (branch i key leaf leaf)) s
        → Gone s key (
            remove_leaf
              (link s)
              i
              (some (pid, node_of pk pl (branch i key leaf leaf), right))
              t.nodes)
    unfolding has_key
    leaf_right pl place =
        let sub : Shape K = branch pid pk pl (branch i key leaf leaf) in
        let e = Represents-At pk t.nodes sub s place v.represents in
        let old = node_of pk pl (branch i key leaf leaf) in
        let sort = Sorted-At pk sub s place v.sorted in
        let w = Avl-At pk sub s place v.avl in
        let taken =
          leaf-Taken sub pl leaf place e old e.0 (λ j. omega arith) e.1 tt refl
            (has_key_root pid pk pl (branch i key leaf leaf)) (has_key-right pl)
            (erased_right pl sort) (omega arith)
            (Lowered-right pid pk pl (branch i key leaf leaf) leaf w
              (record { avl = tt; least = omega arith; most = omega arith }))
            (ground arith) in
        leaf_finish sub (branch pid pk pl leaf) (put pid (node_of pk pl leaf) t.nodes) right old
          (node_of pk pl leaf) (node_of key leaf leaf) taken
          (put-IsFreeList pid old (node_of pk pl leaf) t.nodes free e.0 v.slots)
          (update_height_lem t.nodes pid old pk pl leaf (1 + max (height pl) 1) e.0 e.1 tt
            (omega (arith, small t s free v pid key pk sub place)))
          refl
          (get-put_ne pid i old (node_of pk pl leaf) t.nodes e.0
              (apart sub place (λ _. omega arith))
            ∙ e.2.0)
          refl

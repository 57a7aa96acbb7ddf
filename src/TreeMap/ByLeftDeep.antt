-- ===== src/TreeMap/ByLeftDeep.antt =====
-- The greatest node of the left subtree takes the place of the removed key, where it has a parent
-- in that subtree (near-sdk/src/store/tree_map/mod.rs, do_remove).
use near_runtime_rs.Base.{
  [], ◌+◌, ◌≡◌, ◌≢◌, ◌≤◌, ◌==◌, true, false, if◌then◌else◌, Option, none, some, ◌∷◌, ◌++◌, Outcome,
  arith, refl, sym, ap, ◌∙◌, subst, max, inl, inr,
}
use mathlib.Core.List.{append_assoc}
use near_runtime_rs.FreeList.Defs.{FreeListIndex, get}
use near_runtime_rs.TreeMap.Ord.{Ord}
use near_runtime_rs.TreeMap.Tree.{Node, Nodes, Panic, height_of}
use near_runtime_rs.TreeMap.Shape.{Shape, leaf, branch, height, link, occurs, keys}
use near_runtime_rs.TreeMap.Slots.{put, get-put_self, get-put_ne}
use near_runtime_rs.TreeMap.Represents.{node_of, Represents, Represents-frame, Unique}
use near_runtime_rs.TreeMap.SortedKeys.{Sorted, Sorted-halves, has_key, has_key-append, erase}
use near_runtime_rs.TreeMap.Avl.{Avl}
use near_runtime_rs.TreeMap.Remove.{NodeAndIndex}
use near_runtime_rs.TreeMap.Rebuild.{rebuilt, Stale}
use near_runtime_rs.TreeMap.Place.{
  At, replace, occurs-At, occurs-replace, size-replace, has_key-At, Avl-At, Represents-At,
  Sorted-At, Stale-replace, above_tests,
}
use near_runtime_rs.TreeMap.PlaceKeys.{
  Lowered, Lowered-left, Lowered-right, rebuilt_here, rebuilt_left, rebuilt_levels,
}
use near_runtime_rs.TreeMap.Rebalance.{Taken, height-replace}
use near_runtime_rs.TreeMap.Extreme.{has_key_root, Last}
use near_runtime_rs.TreeMap.Taking.{Emptied}
use near_runtime_rs.TreeMap.Lookup.{eq_swap}
use near_runtime_rs.TreeMap.ByLeft.{erase_middle, same_heights}

module _ {K : Type 0} ⦃o : Ord K⦄ (h : Nodes K) (s : Shape K) (i : FreeListIndex) (key : K)
    (l r : Shape K) (place : At key (branch i key l r) s) (rep : Represents h s) (u : Unique s)
    (sorted : Sorted (keys s)) (v : Avl s)
    {run : Outcome Panic (Option (NodeAndIndex K × Option (NodeAndIndex K)))} (w : Last h l run)
    (c : Emptied h w.mid (node_of w.mk w.ml leaf)) where
  abbrev pub sub : Shape K
  sub = branch i key l r

  -- The subtree of the parent, with the greatest node and without it.
  abbrev pub full : Shape K
  full = branch w.pid w.pk w.pl (branch w.mid w.mk w.ml leaf)

  abbrev pub cut : Shape K
  cut = branch w.pid w.pk w.pl w.ml

  abbrev pub left : Shape K
  left = replace w.pk cut l

  abbrev pub new : Shape K
  new = branch i w.mk left r

  abbrev pub cut_nodes : Nodes K
  cut_nodes = put w.pid (node_of w.pk w.pl w.ml) c.after

  abbrev pub moved : Node K
  moved = record { key = w.mk; lft = link l; rgt = link r; ht = 1 + max (height l) (height r) }

  abbrev pub near : Nodes K
  near = put i moved cut_nodes

  at_sub : Represents h sub
  at_sub = Represents-At key h sub s place rep

  pub once : (j : FreeListIndex) → occurs j sub ≤ 1
  once j = let uj = u j in omega (arith, uj, occurs-At key sub s j place)

  pub at_full : Represents h full
  at_full = Represents-At w.pk h full l w.place at_sub.1

  pub parent_old : get w.pid c.after ≡ some (node_of w.pk w.pl (branch w.mid w.mk w.ml leaf))
  parent_old =
      let op = once w.pid in
      c.others w.pid (ground (arith, op, occurs-At w.pk full l w.pid w.place)) ∙ at_full.0

  pub root_old : get i cut_nodes ≡ some (node_of key l r)
  root_old =
      let oi = once i in
      get-put_ne w.pid i (node_of w.pk w.pl (branch w.mid w.mk w.ml leaf)) (node_of w.pk w.pl w.ml)
        c.after parent_old (ground (arith, oi, occurs-At w.pk full l i w.place))
      ∙ c.others i (ground (arith, oi, occurs-At w.pk full l i w.place))
      ∙ at_sub.0

  -- Slots that are none of the three are as they were.
  unmoved : (j : FreeListIndex) → j ≢ i → j ≢ w.pid → j ≢ w.mid → get j near ≡ get j h
  unmoved j a b d =
      get-put_ne i j (node_of key l r) moved cut_nodes root_old a
      ∙ get-put_ne w.pid j (node_of w.pk w.pl (branch w.mid w.mk w.ml leaf))
          (node_of w.pk w.pl w.ml) c.after parent_old b
      ∙ c.others j d

  kept :
      (t : Shape K)
      → ((j : FreeListIndex) → occurs j t ≢ 0 → (j ≢ i) × (j ≢ w.pid) × (j ≢ w.mid))
      → Represents h t
      → Represents near t
  kept t out e =
      Represents-frame h near t (λ j ne. unmoved j (out j ne).0 (out j ne).1 (out j ne).2) e

  parent_left : Represents near w.pl
  parent_left =
      kept w.pl
        (λ j ne.
          let oj = once j in
          let below = occurs-At w.pk full l j w.place in
          (
            ground (arith, oj, below, ne),
            ground (arith, oj, below, ne),
            ground (arith, oj, below, ne),
          ))
        at_full.1

  parent_right : Represents near w.ml
  parent_right =
      kept w.ml
        (λ j ne.
          let oj = once j in
          let below = occurs-At w.pk full l j w.place in
          (
            ground (arith, oj, below, ne),
            ground (arith, oj, below, ne),
            ground (arith, oj, below, ne),
          ))
        at_full.2.1

  right_kept : Represents near r
  right_kept =
      kept r
        (λ j ne.
          let oj = once j in
          let below = occurs-At w.pk full l j w.place in
          (
            ground (arith, oj, below, ne),
            ground (arith, oj, below, ne),
            ground (arith, oj, below, ne),
          ))
        at_sub.2

  pub left_before : Represents c.after w.pl
  left_before =
      Represents-frame h c.after w.pl
        (λ j ne.
          c.others j (let oj = once j in ground (arith, oj, ne, occurs-At w.pk full l j w.place)))
        at_full.1

  pub right_before : Represents c.after w.ml
  right_before =
      Represents-frame h c.after w.ml
        (λ j ne.
          c.others j (let oj = once j in ground (arith, oj, ne, occurs-At w.pk full l j w.place)))
        at_full.2.1

  pub slot_gone : get w.mid near ≡ none
  slot_gone =
      let om = once w.mid in
      let below = occurs-At w.pk full l w.mid w.place in
      get-put_ne i w.mid (node_of key l r) moved cut_nodes root_old (ground (arith, om, below))
      ∙ get-put_ne w.pid w.mid (node_of w.pk w.pl (branch w.mid w.mk w.ml leaf))
          (node_of w.pk w.pl w.ml) c.after parent_old (ground (arith, om, below))
      ∙ c.gone

  parent_new : get w.pid near ≡ some (node_of w.pk w.pl w.ml)
  parent_new =
      let op = once w.pid in
      let below = occurs-At w.pk full l w.pid w.place in
      get-put_ne i w.pid (node_of key l r) moved cut_nodes root_old (ground (arith, op, below))
      ∙ get-put_self w.pid (node_of w.pk w.pl (branch w.mid w.mk w.ml leaf))
          (node_of w.pk w.pl w.ml) c.after parent_old

  sort : Sorted (keys sub)
  sort = Sorted-At key sub s place sorted

  avl : Avl sub
  avl = Avl-At key sub s place v

  left_sort : Sorted (keys l)
  left_sort = (Sorted-halves (keys l) key (keys r) sort).0

  Stale-left : (Stale w.pk near left) × (link left ≡ link l)
  Stale-left =
      Stale-replace w.pk w.pk h near full cut l w.place at_sub.1
        (λ j. let oj = once j in omega (arith, oj)) left_sort
        (has_key_root w.pid w.pk w.pl (branch w.mid w.mk w.ml leaf)) refl
        (_, parent_new, inl (o.eq_refl w.pk, parent_left, parent_right))
        (λ j ne out.
          let oj = once j in
          unmoved j (ground (arith, oj, ne)) (ground (arith, out)) (ground (arith, out)))

  at_root : get i near ≡ some moved
  at_root = get-put_self i (node_of key l r) moved cut_nodes root_old

  root_height : height_of (some i) near ≡ 1 + max (height l) (height r)
  unfolding height_of
  root_height = ground (arith, at_root)

  parent_below : (o.eq_key w.mk w.pk ≡ false) × (o.lt_key w.pk w.mk ≡ true)
  parent_below =
      let halves =
        Sorted-halves (keys w.pl) w.pk (keys (branch w.mid w.mk w.ml leaf))
          (Sorted-At w.pk full l w.place left_sort) in
      let tests =
        above_tests w.pk w.mk (keys (branch w.mid w.mk w.ml leaf)) halves.2
          (has_key_root w.mid w.mk w.ml leaf) in
      (eq_swap w.mk w.pk ∙ tests.0, tests.1)

  full-Avl : Avl full
  full-Avl = Avl-At w.pk full l w.place avl.2

  cut-Lowered : Lowered full (rebuilt w.pk cut)
  cut-Lowered =
      subst (Lowered full) (sym (rebuilt_here w.pk w.pid w.pk w.pl w.ml (o.eq_refl w.pk))) (
        Lowered-right w.pid w.pk w.pl (branch w.mid w.mk w.ml leaf) w.ml full-Avl
          (record { avl = full-Avl.3.2; least = ground (arith, full-Avl.3.0); most = omega arith }))

  left-Lowered : Lowered l (rebuilt w.pk left)
  left-Lowered =
      rebuilt_levels w.pk w.pk full cut l w.place left_sort avl.2
        (has_key_root w.pid w.pk w.pl (branch w.mid w.mk w.ml leaf)) cut-Lowered

  new_erased : keys new ≡ erase key (keys sub)
  new_erased =
      sym (append_assoc (keys left) (w.mk ∷ []) (keys r))
      ∙ ap (λ xs. xs ++ keys r) (sym w.ends)
      ∙ sym (erase_middle (keys l) key (keys r) sort)

  new_slots : (j : FreeListIndex) → occurs j new + (if j == w.mid then 1 else 0) ≡ occurs j sub
  new_slots j = let e = occurs-replace w.pk full cut l j w.place in omega (arith, e)

  pub Taken-deep : Taken h near s key w.pk key w.mid sub new
  unfolding has_key
  Taken-deep = record {
    place = place;
    stale = (
      _,
      at_root
          ∙ ap
              (λ a.
                some (record {
                  key = w.mk;
                  lft = a;
                  rgt = link r;
                  ht = 1 + max (height l) (height r);
                }))
              (sym Stale-left.1),
      inr (inl (parent_below.0, parent_below.1, Stale-left.0, right_kept)),
    );
    linked = refl;
    pivot = ground (
      arith,
      has_key-append w.pk (keys l) (key ∷ keys r),
      has_key-At w.pk w.pk full l w.place
          (has_key_root w.pid w.pk w.pl (branch w.mid w.mk w.ml leaf)),
    );
    has = has_key_root i key l r;
    erased = new_erased;
    slots = new_slots;
    fewer = omega (arith, size-replace w.pk full cut l w.place);
    outside = λ j out.
        let below = occurs-At w.pk full l j w.place in
        unmoved j (ground (arith, out)) (ground (arith, out, below)) (ground (arith, out, below));
    lowered = same_heights i w.mk key l r (rebuilt w.pk new) (
        subst (Lowered (branch i w.mk l r))
          (sym (rebuilt_left w.pk i w.mk left r parent_below.0 parent_below.1))
          (Lowered-left i w.mk l (rebuilt w.pk left) r avl left-Lowered));
    not_higher = omega (arith, height-replace w.pk full cut l w.place (ground arith));
    fuel = omega (arith, root_height, height-replace w.pk full cut l w.place (ground arith));
  }

-- ===== src/TreeMap/ByRightDeep.antt =====
-- The least node of the right subtree takes the place of the removed key, where it has a parent
-- in that subtree (near-sdk/src/store/tree_map/mod.rs, do_remove).
use near_runtime_rs.Base.{
  ◌+◌, ◌≡◌, ◌≢◌, ◌≤◌, ◌==◌, false, if◌then◌else◌, Option, none, some, ◌∷◌, ◌++◌, Outcome, arith,
  refl, sym, ap, ◌∙◌, subst, max, inl, inr,
}
use near_runtime_rs.FreeList.Defs.{FreeListIndex, get}
use near_runtime_rs.TreeMap.Ord.{Ord}
use near_runtime_rs.TreeMap.Tree.{Node, Nodes, Panic, height_of}
use near_runtime_rs.TreeMap.Shape.{Shape, leaf, branch, height, link, occurs, keys}
use near_runtime_rs.TreeMap.Slots.{put, get-put_self, get-put_ne}
use near_runtime_rs.TreeMap.Represents.{node_of, Represents, Represents-frame, Unique}
use near_runtime_rs.TreeMap.SortedKeys.{Sorted, Sorted-halves, has_key, has_key-append, erase}
use near_runtime_rs.TreeMap.Avl.{Avl}
use near_runtime_rs.TreeMap.Remove.{NodeAndIndex}
use near_runtime_rs.TreeMap.Rebuild.{rebuilt, Stale}
use near_runtime_rs.TreeMap.Place.{
  At, replace, occurs-At, occurs-replace, size-replace, has_key-At, Avl-At, Represents-At,
  Sorted-At, Stale-replace, below_tests,
}
use near_runtime_rs.TreeMap.PlaceKeys.{
  Lowered, Lowered-left, Lowered-right, rebuilt_here, rebuilt_right, rebuilt_levels,
}
use near_runtime_rs.TreeMap.Rebalance.{Taken, height-replace}
use near_runtime_rs.TreeMap.Extreme.{has_key_root}
use near_runtime_rs.TreeMap.Least.{First}
use near_runtime_rs.TreeMap.Taking.{Emptied}
use near_runtime_rs.TreeMap.Lookup.{eq_swap}
use near_runtime_rs.TreeMap.ByLeft.{erase_middle, same_heights}

module _ {K : Type 0} ⦃o : Ord K⦄ (h : Nodes K) (s : Shape K) (i : FreeListIndex) (key : K)
    (l r : Shape K) (place : At key (branch i key l r) s) (rep : Represents h s) (u : Unique s)
    (sorted : Sorted (keys s)) (v : Avl s)
    {run : Outcome Panic (Option (NodeAndIndex K × Option (NodeAndIndex K)))} (w : First h r run)
    (c : Emptied h w.mid (node_of w.mk leaf w.mr)) where
  abbrev pub sub : Shape K
  sub = branch i key l r

  -- The subtree of the parent, with the greatest node and without it.
  abbrev pub full : Shape K
  full = branch w.pid w.pk (branch w.mid w.mk leaf w.mr) w.pr

  abbrev pub cut : Shape K
  cut = branch w.pid w.pk w.mr w.pr

  abbrev pub right : Shape K
  right = replace w.pk cut r

  abbrev pub new : Shape K
  new = branch i w.mk l right

  abbrev pub cut_nodes : Nodes K
  cut_nodes = put w.pid (node_of w.pk w.mr w.pr) c.after

  abbrev pub moved : Node K
  moved = record { key = w.mk; lft = link l; rgt = link r; ht = 1 + max (height l) (height r) }

  abbrev pub near : Nodes K
  near = put i moved cut_nodes

  at_sub : Represents h sub
  at_sub = Represents-At key h sub s place rep

  pub once : (j : FreeListIndex) → occurs j sub ≤ 1
  once j = let uj = u j in omega (arith, uj, occurs-At key sub s j place)

  pub at_full : Represents h full
  at_full = Represents-At w.pk h full r w.place at_sub.2

  pub parent_old : get w.pid c.after ≡ some (node_of w.pk (branch w.mid w.mk leaf w.mr) w.pr)
  parent_old =
      let op = once w.pid in
      c.others w.pid (ground (arith, op, occurs-At w.pk full r w.pid w.place)) ∙ at_full.0

  pub root_old : get i cut_nodes ≡ some (node_of key l r)
  root_old =
      let oi = once i in
      get-put_ne w.pid i (node_of w.pk (branch w.mid w.mk leaf w.mr) w.pr) (node_of w.pk w.mr w.pr)
        c.after parent_old (ground (arith, oi, occurs-At w.pk full r i w.place))
      ∙ c.others i (ground (arith, oi, occurs-At w.pk full r i w.place))
      ∙ at_sub.0

  -- Slots that are none of the three are as they were.
  unmoved : (j : FreeListIndex) → j ≢ i → j ≢ w.pid → j ≢ w.mid → get j near ≡ get j h
  unmoved j a b d =
      get-put_ne i j (node_of key l r) moved cut_nodes root_old a
      ∙ get-put_ne w.pid j (node_of w.pk (branch w.mid w.mk leaf w.mr) w.pr)
          (node_of w.pk w.mr w.pr) c.after parent_old b
      ∙ c.others j d

  kept :
      (t : Shape K)
      → ((j : FreeListIndex) → occurs j t ≢ 0 → (j ≢ i) × (j ≢ w.pid) × (j ≢ w.mid))
      → Represents h t
      → Represents near t
  kept t out e =
      Represents-frame h near t (λ j ne. unmoved j (out j ne).0 (out j ne).1 (out j ne).2) e

  parent_left : Represents near w.mr
  parent_left =
      kept w.mr
        (λ j ne.
          let oj = once j in
          let below = occurs-At w.pk full r j w.place in
          (
            ground (arith, oj, below, ne),
            ground (arith, oj, below, ne),
            ground (arith, oj, below, ne),
          ))
        at_full.1.2

  parent_right : Represents near w.pr
  parent_right =
      kept w.pr
        (λ j ne.
          let oj = once j in
          let below = occurs-At w.pk full r j w.place in
          (
            ground (arith, oj, below, ne),
            ground (arith, oj, below, ne),
            ground (arith, oj, below, ne),
          ))
        at_full.2

  left_kept : Represents near l
  left_kept =
      kept l
        (λ j ne.
          let oj = once j in
          let below = occurs-At w.pk full r j w.place in
          (
            ground (arith, oj, below, ne),
            ground (arith, oj, below, ne),
            ground (arith, oj, below, ne),
          ))
        at_sub.1

  pub left_before : Represents c.after w.mr
  left_before =
      Represents-frame h c.after w.mr
        (λ j ne.
          c.others j (let oj = once j in ground (arith, oj, ne, occurs-At w.pk full r j w.place)))
        at_full.1.2

  pub right_before : Represents c.after w.pr
  right_before =
      Represents-frame h c.after w.pr
        (λ j ne.
          c.others j (let oj = once j in ground (arith, oj, ne, occurs-At w.pk full r j w.place)))
        at_full.2

  pub slot_gone : get w.mid near ≡ none
  slot_gone =
      let om = once w.mid in
      let below = occurs-At w.pk full r w.mid w.place in
      get-put_ne i w.mid (node_of key l r) moved cut_nodes root_old (ground (arith, om, below))
      ∙ get-put_ne w.pid w.mid (node_of w.pk (branch w.mid w.mk leaf w.mr) w.pr)
          (node_of w.pk w.mr w.pr) c.after parent_old (ground (arith, om, below))
      ∙ c.gone

  parent_new : get w.pid near ≡ some (node_of w.pk w.mr w.pr)
  parent_new =
      let op = once w.pid in
      let below = occurs-At w.pk full r w.pid w.place in
      get-put_ne i w.pid (node_of key l r) moved cut_nodes root_old (ground (arith, op, below))
      ∙ get-put_self w.pid (node_of w.pk (branch w.mid w.mk leaf w.mr) w.pr)
          (node_of w.pk w.mr w.pr) c.after parent_old

  sort : Sorted (keys sub)
  sort = Sorted-At key sub s place sorted

  avl : Avl sub
  avl = Avl-At key sub s place v

  right_sort : Sorted (keys r)
  right_sort = (Sorted-halves (keys l) key (keys r) sort).3

  Stale-right : (Stale w.pk near right) × (link right ≡ link r)
  Stale-right =
      Stale-replace w.pk w.pk h near full cut r w.place at_sub.2
        (λ j. let oj = once j in omega (arith, oj)) right_sort
        (has_key_root w.pid w.pk (branch w.mid w.mk leaf w.mr) w.pr) refl
        (_, parent_new, inl (o.eq_refl w.pk, parent_left, parent_right))
        (λ j ne out.
          let oj = once j in
          unmoved j (ground (arith, oj, ne)) (ground (arith, out)) (ground (arith, out)))

  at_root : get i near ≡ some moved
  at_root = get-put_self i (node_of key l r) moved cut_nodes root_old

  root_height : height_of (some i) near ≡ 1 + max (height l) (height r)
  unfolding height_of
  root_height = ground (arith, at_root)

  parent_above : (o.eq_key w.mk w.pk ≡ false) × (o.lt_key w.pk w.mk ≡ false)
  parent_above =
      let halves =
        Sorted-halves (keys (branch w.mid w.mk leaf w.mr)) w.pk (keys w.pr)
          (Sorted-At w.pk full r w.place right_sort) in
      let tests =
        below_tests w.pk w.mk (keys (branch w.mid w.mk leaf w.mr)) halves.1
          (has_key_root w.mid w.mk leaf w.mr) in
      (eq_swap w.mk w.pk ∙ tests.0, tests.1)

  full-Avl : Avl full
  full-Avl = Avl-At w.pk full r w.place avl.3

  cut-Lowered : Lowered full (rebuilt w.pk cut)
  cut-Lowered =
      subst (Lowered full) (sym (rebuilt_here w.pk w.pid w.pk w.mr w.pr (o.eq_refl w.pk))) (
        Lowered-left w.pid w.pk (branch w.mid w.mk leaf w.mr) w.mr w.pr full-Avl
          (record { avl = full-Avl.2.3; least = ground (arith, full-Avl.2.1); most = omega arith }))

  right-Lowered : Lowered r (rebuilt w.pk right)
  right-Lowered =
      rebuilt_levels w.pk w.pk full cut r w.place right_sort avl.3
        (has_key_root w.pid w.pk (branch w.mid w.mk leaf w.mr) w.pr) cut-Lowered

  new_erased : keys new ≡ erase key (keys sub)
  new_erased =
      ap (λ xs. keys l ++ xs) (sym w.starts) ∙ sym (erase_middle (keys l) key (keys r) sort)

  new_slots : (j : FreeListIndex) → occurs j new + (if j == w.mid then 1 else 0) ≡ occurs j sub
  new_slots j = let e = occurs-replace w.pk full cut r j w.place in omega (arith, e)

  pub Taken-deep : Taken h near s key w.pk key w.mid sub new
  unfolding has_key
  Taken-deep = record {
    place = place;
    stale = (
      _,
      at_root
          ∙ ap
              (λ a.
                some (record {
                  key = w.mk;
                  lft = link l;
                  rgt = a;
                  ht = 1 + max (height l) (height r);
                }))
              (sym Stale-right.1),
      inr (inr (parent_above.0, parent_above.1, left_kept, Stale-right.0)),
    );
    linked = refl;
    pivot = ground (
      arith,
      has_key-append w.pk (keys l) (key ∷ keys r),
      has_key-At w.pk w.pk full r w.place
          (has_key_root w.pid w.pk (branch w.mid w.mk leaf w.mr) w.pr),
    );
    has = has_key_root i key l r;
    erased = new_erased;
    slots = new_slots;
    fewer = omega (arith, size-replace w.pk full cut r w.place);
    outside = λ j out.
        let below = occurs-At w.pk full r j w.place in
        unmoved j (ground (arith, out)) (ground (arith, out, below)) (ground (arith, out, below));
    lowered = same_heights i w.mk key l r (rebuilt w.pk new) (
        subst (Lowered (branch i w.mk l r))
          (sym (rebuilt_right w.pk i w.mk l right parent_above.0 parent_above.1))
          (Lowered-right i w.mk l r (rebuilt w.pk right) avl right-Lowered));
    not_higher = omega (arith, height-replace w.pk full cut r w.place (ground arith));
    fuel = omega (arith, root_height, height-replace w.pk full cut r w.place (ground arith));
  }

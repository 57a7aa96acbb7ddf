-- ===== src/TreeMap/ByRight.antt =====
-- The least node of the right subtree takes the place of the removed key
-- (near-sdk/src/store/tree_map/mod.rs, do_remove).
use near_runtime_rs.Base.{List, ◌≡◌, ◌≢◌, ◌≤◌, none, some, ◌∷◌, arith, refl, sym, ◌∙◌, subst, inl}
use near_runtime_rs.FreeList.Defs.{FreeListIndex, get}
use near_runtime_rs.TreeMap.Ord.{Ord}
use near_runtime_rs.TreeMap.Tree.{Node, Nodes}
use near_runtime_rs.TreeMap.Shape.{Shape, leaf, branch, occurs, keys}
use near_runtime_rs.TreeMap.Slots.{put, get-put_self, get-put_ne}
use near_runtime_rs.TreeMap.Represents.{
  node_of, Represents, Represents-frame, Unique, height_of-link,
}
use near_runtime_rs.TreeMap.SortedKeys.{Sorted, has_key, has_key-append}
use near_runtime_rs.TreeMap.Avl.{Avl}
use near_runtime_rs.TreeMap.Rebuild.{rebuilt}
use near_runtime_rs.TreeMap.Place.{At, occurs-At, Avl-At, Represents-At, Sorted-At}
use near_runtime_rs.TreeMap.PlaceKeys.{Lowered, Lowered-right, rebuilt_here}
use near_runtime_rs.TreeMap.Rebalance.{Taken}
use near_runtime_rs.TreeMap.Extreme.{has_key_root}
use near_runtime_rs.TreeMap.Taking.{Emptied}
use near_runtime_rs.TreeMap.ByLeft.{erase_middle, same_heights}

module _ {K : Type 0} ⦃o : Ord K⦄ where
  -- The right child itself is the least: its right subtree goes up.
  module _ (h : Nodes K) (s : Shape K) (free : List FreeListIndex) (i : FreeListIndex) (key : K)
      (ri : FreeListIndex) (rk : K) (l rr : Shape K)
      (place : At key (branch i key l (branch ri rk leaf rr)) s) (rep : Represents h s)
      (u : Unique s) (sorted : Sorted (keys s)) (v : Avl s) (n : Node K) (c : Emptied h ri n) where
    abbrev pub sub : Shape K
    sub = branch i key l (branch ri rk leaf rr)

    abbrev pub new : Shape K
    new = branch i rk l rr

    abbrev pub near : Nodes K
    near = put i (node_of rk l rr) c.after

    abbrev at_sub : Represents h sub
    at_sub = Represents-At key h sub s place rep

    once : (j : FreeListIndex) → occurs j sub ≤ 1
    once j = let uj = u j in omega (arith, uj, occurs-At key sub s j place)

    pub old : get i c.after ≡ some (node_of key l (branch ri rk leaf rr))
    old = let oi = once i in c.others i (ground (arith, oi)) ∙ at_sub.0

    apart :
        (t : Shape K)
        → ((j : FreeListIndex) → occurs j t ≢ 0 → (j ≢ ri) × (j ≢ i))
        → Represents h t
        → Represents near t
    apart t out e =
        Represents-frame h near t
          (λ j ne.
            get-put_ne i j (node_of key l (branch ri rk leaf rr)) (node_of rk l rr) c.after old
              (out j ne).1
            ∙ c.others j (out j ne).0)
          e

    pub left_kept : Represents near l
    left_kept =
        apart l (λ j ne. let oj = once j in (ground (arith, oj, ne), ground (arith, oj, ne)))
          at_sub.1

    pub right_kept : Represents near rr
    right_kept =
        apart rr (λ j ne. let oj = once j in (ground (arith, oj, ne), ground (arith, oj, ne)))
          at_sub.2.2

    pub left_before : Represents c.after l
    left_before =
        Represents-frame h c.after l
          (λ j ne. c.others j (let oj = once j in ground (arith, oj, ne))) at_sub.1

    pub right_before : Represents c.after rr
    right_before =
        Represents-frame h c.after rr
          (λ j ne. c.others j (let oj = once j in ground (arith, oj, ne))) at_sub.2.2

    pub slot_gone : get ri near ≡ none
    slot_gone =
        let oi = once i in
        get-put_ne i ri (node_of key l (branch ri rk leaf rr)) (node_of rk l rr) c.after old
          (ground (arith, oi))
        ∙ c.gone

    pub taken : Taken h near s key rk key ri sub new
    unfolding has_key
    taken =
        let w = Avl-At key sub s place v in
        let sort = Sorted-At key sub s place sorted in
        record {
          place = place;
          stale = (
            _,
            get-put_self i (node_of key l (branch ri rk leaf rr)) (node_of rk l rr) c.after old,
            inl (o.eq_refl rk, left_kept, right_kept),
          );
          linked = refl;
          pivot = ground (
            arith,
            has_key-append rk (keys l) (key ∷ keys (branch ri rk leaf rr)),
            has_key_root ri rk leaf rr,
          );
          has = has_key_root i key l (branch ri rk leaf rr);
          erased = sym (erase_middle (keys l) key (keys (branch ri rk leaf rr)) sort);
          slots = λ j. let oj = once j in ground (arith, oj);
          fewer = omega arith;
          outside = λ j out.
              get-put_ne i j (node_of key l (branch ri rk leaf rr)) (node_of rk l rr) c.after old
                (λ p. ground (arith, p, out))
              ∙ c.others j (λ p. ground (arith, p, out));
          lowered = same_heights i rk key l (branch ri rk leaf rr) (rebuilt rk new) (
              subst (Lowered (branch i rk l (branch ri rk leaf rr)))
                (sym (rebuilt_here rk i rk l rr (o.eq_refl rk)))
                (Lowered-right i rk l (branch ri rk leaf rr) rr w
                  (record { avl = w.3.3; least = ground (arith, w.3.1); most = omega arith })));
          not_higher = ground arith;
          fuel = omega (
            arith,
            height_of-link near new (
              get-put_self i (node_of key l (branch ri rk leaf rr)) (node_of rk l rr) c.after old,
              left_kept,
              right_kept,
            ),
          );
        }

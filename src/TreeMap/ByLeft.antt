-- ===== src/TreeMap/ByLeft.antt =====
-- The greatest node of the left subtree takes the place of the removed key
-- (near-sdk/src/store/tree_map/mod.rs, do_remove).
use near_runtime_rs.Base.{
  List, [], ◌≡◌, ◌≢◌, ◌≤◌, false, none, some, ◌∷◌, ◌++◌, arith, refl, sym, ◌∙◌, subst, inl,
}
use mathlib.Core.List.{append_assoc}
use near_runtime_rs.FreeList.Defs.{FreeListIndex, get}
use near_runtime_rs.TreeMap.Ord.{Ord}
use near_runtime_rs.TreeMap.Tree.{Node, Nodes}
use near_runtime_rs.TreeMap.Shape.{Shape, leaf, branch, occurs, keys}
use near_runtime_rs.TreeMap.Slots.{put, get-put_self, get-put_ne}
use near_runtime_rs.TreeMap.Represents.{
  node_of, Represents, Represents-frame, Unique, height_of-link,
}
use near_runtime_rs.TreeMap.SortedKeys.{
  AllBelow, Sorted, Sorted-halves, has_key, has_key-append, erase, erase_right,
}
use near_runtime_rs.TreeMap.Avl.{Avl}
use near_runtime_rs.TreeMap.Rebuild.{rebuilt}
use near_runtime_rs.TreeMap.Place.{At, occurs-At, Avl-At, Represents-At, Sorted-At}
use near_runtime_rs.TreeMap.PlaceKeys.{Lowered, Lowered-left, rebuilt_here}
use near_runtime_rs.TreeMap.Rebalance.{Taken}
use near_runtime_rs.TreeMap.Extreme.{has_key_root}
use near_runtime_rs.TreeMap.Taking.{Emptied}

module _ {K : Type 0} ⦃o : Ord K⦄ where
  below_self : (k : K) (xs : List K) → AllBelow k xs → has_key k xs ≡ false
  unfolding has_key
  below_self k [] b = refl
  below_self k (x ∷ xs) b = ground (arith, b.0, below_self k xs b.1, o.eq_sound k x, o.lt_irrefl k)

  -- The list without the key between its halves.
  pub erase_middle :
      (xs : List K) (k : K) (ys : List K)
      → Sorted (xs ++ (k ∷ ys))
      → erase k (xs ++ (k ∷ ys)) ≡ xs ++ ys
  unfolding erase
  erase_middle xs k ys s =
      let halves = Sorted-halves xs k ys s in
      erase_right k xs (k ∷ ys) (below_self k xs halves.1) ∙ ground (arith, o.eq_refl k)

  pub same_heights :
      (i : FreeListIndex) (k m : K) (l r t : Shape K)
      → Lowered (branch i k l r) t
      → Lowered (branch i m l r) t
  same_heights i k m l r t w = record { avl = w.avl; least = w.least; most = w.most }

  -- The left child itself is the greatest: its left subtree goes up.
  module _ (h : Nodes K) (s : Shape K) (free : List FreeListIndex) (i : FreeListIndex) (key : K)
      (li : FreeListIndex) (lk : K) (ll r : Shape K)
      (place : At key (branch i key (branch li lk ll leaf) r) s) (rep : Represents h s)
      (u : Unique s) (sorted : Sorted (keys s)) (v : Avl s) (n : Node K) (c : Emptied h li n) where
    abbrev pub sub : Shape K
    sub = branch i key (branch li lk ll leaf) r

    abbrev pub new : Shape K
    new = branch i lk ll r

    abbrev pub near : Nodes K
    near = put i (node_of lk ll r) c.after

    abbrev at_sub : Represents h sub
    at_sub = Represents-At key h sub s place rep

    once : (j : FreeListIndex) → occurs j sub ≤ 1
    once j = let uj = u j in omega (arith, uj, occurs-At key sub s j place)

    pub old : get i c.after ≡ some (node_of key (branch li lk ll leaf) r)
    old = let oi = once i in c.others i (ground (arith, oi)) ∙ at_sub.0

    apart :
        (t : Shape K)
        → ((j : FreeListIndex) → occurs j t ≢ 0 → (j ≢ li) × (j ≢ i))
        → Represents h t
        → Represents near t
    apart t out e =
        Represents-frame h near t
          (λ j ne.
            get-put_ne i j (node_of key (branch li lk ll leaf) r) (node_of lk ll r) c.after old
              (out j ne).1
            ∙ c.others j (out j ne).0)
          e

    pub left_kept : Represents near ll
    left_kept =
        apart ll (λ j ne. let oj = once j in (ground (arith, oj, ne), ground (arith, oj, ne)))
          at_sub.1.1

    pub right_kept : Represents near r
    right_kept =
        apart r (λ j ne. let oj = once j in (ground (arith, oj, ne), ground (arith, oj, ne)))
          at_sub.2

    pub left_before : Represents c.after ll
    left_before =
        Represents-frame h c.after ll
          (λ j ne. c.others j (let oj = once j in ground (arith, oj, ne))) at_sub.1.1

    pub right_before : Represents c.after r
    right_before =
        Represents-frame h c.after r
          (λ j ne. c.others j (let oj = once j in ground (arith, oj, ne))) at_sub.2

    pub slot_gone : get li near ≡ none
    slot_gone =
        let oi = once i in
        get-put_ne i li (node_of key (branch li lk ll leaf) r) (node_of lk ll r) c.after old
          (ground (arith, oi))
        ∙ c.gone

    pub taken : Taken h near s key lk key li sub new
    unfolding has_key
    taken =
        let w = Avl-At key sub s place v in
        let sort = Sorted-At key sub s place sorted in
        record {
          place = place;
          stale = (
            _,
            get-put_self i (node_of key (branch li lk ll leaf) r) (node_of lk ll r) c.after old,
            inl (o.eq_refl lk, left_kept, right_kept),
          );
          linked = refl;
          pivot = ground (
            arith,
            has_key-append lk (keys (branch li lk ll leaf)) (key ∷ keys r),
            has_key_root li lk ll leaf,
          );
          has = has_key_root i key (branch li lk ll leaf) r;
          erased =
              sym (append_assoc (keys ll) (lk ∷ []) (keys r))
              ∙ sym (erase_middle (keys (branch li lk ll leaf)) key (keys r) sort);
          slots = λ j. let oj = once j in ground (arith, oj);
          fewer = omega arith;
          outside = λ j out.
              get-put_ne i j (node_of key (branch li lk ll leaf) r) (node_of lk ll r) c.after old
                (λ p. ground (arith, p, out))
              ∙ c.others j (λ p. ground (arith, p, out));
          lowered = same_heights i lk key (branch li lk ll leaf) r (rebuilt lk new) (
              subst (Lowered (branch i lk (branch li lk ll leaf) r))
                (sym (rebuilt_here lk i lk ll r (o.eq_refl lk)))
                (Lowered-left i lk (branch li lk ll leaf) ll r w
                  (record { avl = w.2.2; least = ground (arith, w.2.0); most = omega arith })));
          not_higher = ground arith;
          fuel = omega (
            arith,
            height_of-link near new (
              get-put_self i (node_of key (branch li lk ll leaf) r) (node_of lk ll r) c.after old,
              left_kept,
              right_kept,
            ),
          );
        }

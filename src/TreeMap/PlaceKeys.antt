-- ===== src/TreeMap/PlaceKeys.antt =====
-- What a smaller subtree in its place does to the keys and to the heights of the tree
-- (near-sdk/src/store/tree_map/mod.rs).
use near_runtime_rs.Base.{
  List, ◌+◌, ◌≡◌, ◌≤◌, true, false, ◌∷◌, ◌++◌, arith, sym, ap, ◌∙◌, subst, inl, inr,
}
use near_runtime_rs.FreeList.Defs.{FreeListIndex}
use near_runtime_rs.TreeMap.Ord.{Ord}
use near_runtime_rs.TreeMap.Shape.{Shape, leaf, branch, height, keys, balanced}
use near_runtime_rs.TreeMap.SortedKeys.{
  Sorted, Sorted-halves, has_key, erase, erase_left, erase_right,
}
use near_runtime_rs.TreeMap.Avl.{Avl, balanced_levels}
use near_runtime_rs.TreeMap.Lookup.{has_key_below, eq_swap}
use near_runtime_rs.TreeMap.Rebuild.{rebuilt}
use near_runtime_rs.TreeMap.Place.{
  below_tests, above_tests, At, replace, replace_here, replace_left, replace_right, has_key-At,
}

module _ {K : Type 0} ⦃o : Ord K⦄ where
  erase_head : (q k : K) (ks : List K) → o.eq_key k q ≡ false → erase q (k ∷ ks) ≡ k ∷ erase q ks
  unfolding erase
  erase_head q k ks ne = ground (arith, eq_swap k q, ne)

  pub keys-replace :
      (a q : K) (sub new t : Shape K)
      → At a sub t
      → Sorted (keys t)
      → has_key q (keys sub) ≡ true
      → keys new ≡ erase q (keys sub)
      → keys (replace a new t) ≡ erase q (keys t)
  keys-replace a q sub new leaf p s hq e = absurd p
  keys-replace a q sub new (branch i k l r) (inl (eq, is)) s hq e =
      ap keys (replace_here a new i k l r eq) ∙ e ∙ ap (λ t. erase q (keys t)) (sym is)
  keys-replace a q sub new (branch i k l r) (inr (inl (eq, lt, p))) s hq e =
      let halves = Sorted-halves (keys l) k (keys r) s in
      ap keys (replace_left a new i k l r eq lt)
      ∙ ap (λ xs. xs ++ (k ∷ keys r)) (keys-replace a q sub new l p halves.0 hq e)
      ∙ sym (erase_left q (keys l) (k ∷ keys r) (has_key-At a q sub l p hq))
  keys-replace a q sub new (branch i k l r) (inr (inr (eq, lt, p))) s hq e =
      let halves = Sorted-halves (keys l) k (keys r) s in
      let tests = above_tests k q (keys r) halves.2 (has_key-At a q sub r p hq) in
      ap keys (replace_right a new i k l r eq lt)
      ∙ ap (λ xs. keys l ++ (k ∷ xs)) (keys-replace a q sub new r p halves.3 hq e)
      ∙ ap (λ xs. keys l ++ xs) (sym (erase_head q k (keys r) tests.0))
      ∙ sym (erase_right q (keys l) (k ∷ keys r) (has_key_below q k (keys l) halves.1 tests.1))

  -- A balanced tree in the place of one that was as high or higher by one.
  pub record Lowered (t t' : Shape K) : Type 0 where
    pub avl : Avl t'
    pub least : height t ≤ height t' + 1
    pub most : height t' ≤ height t

  pub Lowered-left :
      (i : FreeListIndex) (k : K) (l l' r : Shape K)
      → Avl (branch i k l r)
      → Lowered l l'
      → Lowered (branch i k l r) (balanced i k l' r)
  Lowered-left i k l l' r v w =
      let b =
        balanced_levels i k l' r w.avl v.3 (omega (arith, v.0, w.most))
          (omega (arith, v.1, w.least)) in
      record {
        avl = b.avl;
        least = ground (arith, b.least, b.even, v.0, v.1, w.least, w.most);
        most = ground (arith, b.most, w.most);
      }

  pub Lowered-right :
      (i : FreeListIndex) (k : K) (l r r' : Shape K)
      → Avl (branch i k l r)
      → Lowered r r'
      → Lowered (branch i k l r) (balanced i k l r')
  Lowered-right i k l r r' v w =
      let b =
        balanced_levels i k l r' v.2 w.avl (omega (arith, v.0, w.least))
          (omega (arith, v.1, w.most)) in
      record {
        avl = b.avl;
        least = ground (arith, b.least, b.even, v.0, v.1, w.least, w.most);
        most = ground (arith, b.most, w.most);
      }

  module _ (q : K) (i : FreeListIndex) (k : K) (l r : Shape K) where
    pub rebuilt_here : o.eq_key k q ≡ true → rebuilt q (branch i k l r) ≡ balanced i k l r
    unfolding rebuilt
    rebuilt_here eq = ground (arith, eq)

    pub rebuilt_left :
        o.eq_key k q ≡ false
        → o.lt_key q k ≡ true
        → rebuilt q (branch i k l r) ≡ balanced i k (rebuilt q l) r
    unfolding rebuilt
    rebuilt_left eq lt = ground (arith, eq, lt)

    pub rebuilt_right :
        o.eq_key k q ≡ false
        → o.lt_key q k ≡ false
        → rebuilt q (branch i k l r) ≡ balanced i k l (rebuilt q r)
    unfolding rebuilt
    rebuilt_right eq lt = ground (arith, eq, lt)

  pub rebuilt_levels :
      (a q : K) (sub new t : Shape K)
      → At a sub t
      → Sorted (keys t)
      → Avl t
      → has_key q (keys sub) ≡ true
      → Lowered sub (rebuilt q new)
      → Lowered t (rebuilt q (replace a new t))
  rebuilt_levels a q sub new leaf p s v hq w = absurd p
  rebuilt_levels a q sub new (branch i k l r) (inl (eq, is)) s v hq w =
      subst (λ t. Lowered (branch i k l r) (rebuilt q t)) (sym (replace_here a new i k l r eq))
        (subst (λ t. Lowered t (rebuilt q new)) (sym is) w)
  rebuilt_levels a q sub new (branch i k l r) (inr (inl (eq, lt, p))) s v hq w =
      let halves = Sorted-halves (keys l) k (keys r) s in
      let tests = below_tests k q (keys l) halves.1 (has_key-At a q sub l p hq) in
      subst (Lowered (branch i k l r))
        (sym (
          ap (rebuilt q) (replace_left a new i k l r eq lt)
          ∙ rebuilt_left q i k (replace a new l) r tests.0 tests.2))
        (Lowered-left i k l (rebuilt q (replace a new l)) r v
          (rebuilt_levels a q sub new l p halves.0 v.2 hq w))
  rebuilt_levels a q sub new (branch i k l r) (inr (inr (eq, lt, p))) s v hq w =
      let halves = Sorted-halves (keys l) k (keys r) s in
      let tests = above_tests k q (keys r) halves.2 (has_key-At a q sub r p hq) in
      subst (Lowered (branch i k l r))
        (sym (
          ap (rebuilt q) (replace_right a new i k l r eq lt)
          ∙ rebuilt_right q i k l (replace a new r) tests.0 tests.2))
        (Lowered-right i k l r (rebuilt q (replace a new r)) v
          (rebuilt_levels a q sub new r p halves.3 v.3 hq w))

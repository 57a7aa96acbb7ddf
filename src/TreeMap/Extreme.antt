-- ===== src/TreeMap/Extreme.antt =====
-- The last node of a subtree, and its parent (near-sdk/src/store/tree_map/mod.rs, max_at, min_at).
use near_runtime_rs.Base.{
  ℕ, zero, suc, [], ◌≡◌, ◌≤◌, true, Option, some, ◌∷◌, ◌++◌, Outcome, done, arith, refl, sym, ap,
  ◌∙◌, inl, inr, ◌⊎◌,
}
use mathlib.Core.List.{append_assoc}
use near_runtime_rs.FreeList.Defs.{FreeListIndex}
use near_runtime_rs.TreeMap.Ord.{Ord}
use near_runtime_rs.TreeMap.Tree.{Nodes, Panic, node}
use near_runtime_rs.TreeMap.Shape.{Shape, leaf, branch, height, keys}
use near_runtime_rs.TreeMap.SortedKeys.{Sorted, Sorted-halves, has_key, has_key-append}
use near_runtime_rs.TreeMap.Represents.{node_of, Represents}
use near_runtime_rs.TreeMap.Remove.{NodeAndIndex, max_from}
use near_runtime_rs.TreeMap.Place.{
  above_tests, At, has_key-At, replace, replace_here, replace_right,
}

module _ {K : Type 0} ⦃o : Ord K⦄ where
  pub has_key_root :
      (i : FreeListIndex) (k : K) (l r : Shape K) → has_key k (keys (branch i k l r)) ≡ true
  unfolding has_key
  has_key_root i k l r = ground (arith, has_key-append k (keys l) (k ∷ keys r), o.eq_refl k)

  -- The greatest node has a parent in the tree.
  pub record Last (h : Nodes K) (t : Shape K)
      (run : Outcome Panic (Option (NodeAndIndex K × Option (NodeAndIndex K)))) : Type 0 where
    pub pid : FreeListIndex
    pub pk : K
    pub pl : Shape K
    pub mid : FreeListIndex
    pub mk : K
    pub ml : Shape K
    pub place : At pk (branch pid pk pl (branch mid mk ml leaf)) t
    pub found :
        run
        ≡ done (some ((mid, node_of mk ml leaf), some (pid, node_of pk pl (branch mid mk ml leaf))))
    pub ends : keys t ≡ keys (replace pk (branch pid pk pl ml) t) ++ (mk ∷ [])

  module _ (fuel : ℕ) (h : Nodes K) (i : FreeListIndex) (p : Option (NodeAndIndex K)) (k : K)
      (l : Shape K) where
    pub max_stop :
        node h i ≡ some (node_of k l leaf)
        → max_from (suc fuel) i p h ≡ done (some ((i, node_of k l leaf), p))
    unfolding max_from
    max_stop e = ground (arith, e)

    max_step :
        (j : FreeListIndex) (m : K) (a b : Shape K)
        → node h i ≡ some (node_of k l (branch j m a b))
        → max_from (suc fuel) i p h ≡ max_from fuel j (some (i, node_of k l (branch j m a b))) h
    unfolding max_from
    max_step j m a b e = ground (arith, e)

  Last-here :
      (fuel : ℕ) (h : Nodes K) (i : FreeListIndex) (k : K) (l : Shape K) (j : FreeListIndex) (m : K)
      (a b : Shape K) (p : Option (NodeAndIndex K))
      → node h i ≡ some (node_of k l (branch j m a b))
      → b ≡ leaf
      → max_from fuel j (some (i, node_of k l (branch j m a b))) h
        ≡ done (some ((j, node_of m a leaf), some (i, node_of k l (branch j m a b))))
      → Last h (branch i k l (branch j m a b)) (max_from (suc fuel) i p h)
  Last-here fuel h i k l j m a (branch x y z w) p e is run = absurd (ground (arith, ap height is))
  Last-here fuel h i k l j m a leaf p e is run = record {
    pid = i;
    pk = k;
    pl = l;
    mid = j;
    mk = m;
    ml = a;
    place = inl (o.eq_refl k, refl);
    found = max_step fuel h i p k l j m a leaf e ∙ run;
    ends =
        sym (append_assoc (keys l) (k ∷ keys a) (m ∷ []))
        ∙ ap (λ t. keys t ++ (m ∷ []))
            (sym (replace_here k (branch i k l a) i k l (branch j m a leaf) (o.eq_refl k)));
  }

  pub max_lem :
      (fuel : ℕ) (h : Nodes K) (i : FreeListIndex) (k : K) (l r : Shape K)
      (p : Option (NodeAndIndex K))
      → Represents h (branch i k l r)
      → Sorted (keys (branch i k l r))
      → height (branch i k l r) ≤ fuel
      → ((r ≡ leaf) × (max_from fuel i p h ≡ done (some ((i, node_of k l leaf), p))))
        ⊎ Last h (branch i k l r) (max_from fuel i p h)
  max_lem zero h i k l r p e s f = absurd (omega (arith, f))
  max_lem (suc fuel) h i k l leaf p e s f = inl (refl, max_stop fuel h i p k l e.0)
  max_lem (suc fuel) h i k l (branch j m a b) p e s f =
      let halves = Sorted-halves (keys l) k (keys (branch j m a b)) s in
      elim (max_lem fuel h j m a b (some (i, node_of k l (branch j m a b))) e.2 halves.3
        (omega (arith, f))) [
          | inl (is, run) ↦ inr (Last-here fuel h i k l j m a b p e.0 is run)
          | inr w ↦
              let tests = above_tests k w.pk (keys (branch j m a b)) halves.2 (
                has_key-At w.pk w.pk (branch w.pid w.pk w.pl (branch w.mid w.mk w.ml leaf))
                  (branch j m a b) w.place
                  (has_key_root w.pid w.pk w.pl (branch w.mid w.mk w.ml leaf))) in
              inr (record {
                pid = w.pid;
                pk = w.pk;
                pl = w.pl;
                mid = w.mid;
                mk = w.mk;
                ml = w.ml;
                place = inr (inr (tests.0, tests.1, w.place));
                found = max_step fuel h i p k l j m a b e.0 ∙ w.found;
                ends =
                    ap (λ xs. keys l ++ (k ∷ xs)) w.ends
                    ∙ sym (
                        append_assoc (keys l)
                          (k ∷ keys (replace w.pk (branch w.pid w.pk w.pl w.ml) (branch j m a b)))
                          (w.mk ∷ []))
                    ∙ ap (λ t. keys t ++ (w.mk ∷ []))
                        (sym (
                          replace_right w.pk (branch w.pid w.pk w.pl w.ml) i k l (branch j m a b)
                            tests.0 tests.1));
              })
        ]

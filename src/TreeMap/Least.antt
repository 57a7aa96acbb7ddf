-- ===== src/TreeMap/Least.antt =====
-- The first node of a subtree, and its parent (near-sdk/src/store/tree_map/mod.rs, min_at).
use near_runtime_rs.Base.{
  ℕ, zero, suc, ◌≡◌, ◌≤◌, Option, some, ◌∷◌, ◌++◌, Outcome, done, arith, refl, sym, ap, ◌∙◌, inl,
  inr, ◌⊎◌,
}
use near_runtime_rs.FreeList.Defs.{FreeListIndex}
use near_runtime_rs.TreeMap.Ord.{Ord}
use near_runtime_rs.TreeMap.Tree.{Nodes, Panic, node}
use near_runtime_rs.TreeMap.Shape.{Shape, leaf, branch, height, keys}
use near_runtime_rs.TreeMap.SortedKeys.{Sorted, Sorted-halves}
use near_runtime_rs.TreeMap.Represents.{node_of, Represents}
use near_runtime_rs.TreeMap.Remove.{NodeAndIndex, min_from}
use near_runtime_rs.TreeMap.Place.{below_tests, At, has_key-At, replace, replace_here, replace_left}
use near_runtime_rs.TreeMap.Extreme.{has_key_root}

module _ {K : Type 0} ⦃o : Ord K⦄ where
  -- The least node has a parent in the tree.
  pub record First (h : Nodes K) (t : Shape K)
      (run : Outcome Panic (Option (NodeAndIndex K × Option (NodeAndIndex K)))) : Type 0 where
    pub pid : FreeListIndex
    pub pk : K
    pub pr : Shape K
    pub mid : FreeListIndex
    pub mk : K
    pub mr : Shape K
    pub place : At pk (branch pid pk (branch mid mk leaf mr) pr) t
    pub found :
        run
        ≡ done (some ((mid, node_of mk leaf mr), some (pid, node_of pk (branch mid mk leaf mr) pr)))
    pub starts : keys t ≡ mk ∷ keys (replace pk (branch pid pk mr pr) t)

  module _ (fuel : ℕ) (h : Nodes K) (i : FreeListIndex) (p : Option (NodeAndIndex K)) (k : K)
      (r : Shape K) where
    pub min_stop :
        node h i ≡ some (node_of k leaf r)
        → min_from (suc fuel) i p h ≡ done (some ((i, node_of k leaf r), p))
    unfolding min_from
    min_stop e = ground (arith, e)

    min_step :
        (j : FreeListIndex) (m : K) (a b : Shape K)
        → node h i ≡ some (node_of k (branch j m a b) r)
        → min_from (suc fuel) i p h ≡ min_from fuel j (some (i, node_of k (branch j m a b) r)) h
    unfolding min_from
    min_step j m a b e = ground (arith, e)

  First-here :
      (fuel : ℕ) (h : Nodes K) (i : FreeListIndex) (k : K) (r : Shape K) (j : FreeListIndex) (m : K)
      (a b : Shape K) (p : Option (NodeAndIndex K))
      → node h i ≡ some (node_of k (branch j m a b) r)
      → a ≡ leaf
      → min_from fuel j (some (i, node_of k (branch j m a b) r)) h
        ≡ done (some ((j, node_of m leaf b), some (i, node_of k (branch j m a b) r)))
      → First h (branch i k (branch j m a b) r) (min_from (suc fuel) i p h)
  First-here fuel h i k r j m (branch x y z w) b p e is run = absurd (ground (arith, ap height is))
  First-here fuel h i k r j m leaf b p e is run = record {
    pid = i;
    pk = k;
    pr = r;
    mid = j;
    mk = m;
    mr = b;
    place = inl (o.eq_refl k, refl);
    found = min_step fuel h i p k r j m leaf b e ∙ run;
    starts =
        ap (λ t. m ∷ keys t)
          (sym (replace_here k (branch i k b r) i k (branch j m leaf b) r (o.eq_refl k)));
  }

  pub min_lem :
      (fuel : ℕ) (h : Nodes K) (i : FreeListIndex) (k : K) (l r : Shape K)
      (p : Option (NodeAndIndex K))
      → Represents h (branch i k l r)
      → Sorted (keys (branch i k l r))
      → height (branch i k l r) ≤ fuel
      → ((l ≡ leaf) × (min_from fuel i p h ≡ done (some ((i, node_of k leaf r), p))))
        ⊎ First h (branch i k l r) (min_from fuel i p h)
  min_lem zero h i k l r p e s f = absurd (omega (arith, f))
  min_lem (suc fuel) h i k leaf r p e s f = inl (refl, min_stop fuel h i p k r e.0)
  min_lem (suc fuel) h i k (branch j m a b) r p e s f =
      let halves = Sorted-halves (keys (branch j m a b)) k (keys r) s in
      elim (min_lem fuel h j m a b (some (i, node_of k (branch j m a b) r)) e.1 halves.0
        (omega (arith, f))) [
          | inl (is, run) ↦ inr (First-here fuel h i k r j m a b p e.0 is run)
          | inr w ↦
              let tests = below_tests k w.pk (keys (branch j m a b)) halves.1 (
                has_key-At w.pk w.pk (branch w.pid w.pk (branch w.mid w.mk leaf w.mr) w.pr)
                  (branch j m a b) w.place
                  (has_key_root w.pid w.pk (branch w.mid w.mk leaf w.mr) w.pr)) in
              inr (record {
                pid = w.pid;
                pk = w.pk;
                pr = w.pr;
                mid = w.mid;
                mk = w.mk;
                mr = w.mr;
                place = inr (inl (tests.0, tests.1, w.place));
                found = min_step fuel h i p k r j m a b e.0 ∙ w.found;
                starts =
                    ap (λ xs. xs ++ (k ∷ keys r)) w.starts
                    ∙ ap (λ t. w.mk ∷ keys t)
                        (sym (
                          replace_left w.pk (branch w.pid w.pk w.mr w.pr) i k (branch j m a b) r
                            tests.0 tests.1));
              })
        ]

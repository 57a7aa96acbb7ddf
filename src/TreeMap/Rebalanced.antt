-- ===== src/TreeMap/Rebalanced.antt =====
-- What rebalancing a tree keeps: its slots, its size, and its keys in their order
-- (near-sdk/src/store/tree_map/mod.rs).
use near_runtime_rs.Base.{◌+◌, ◌≡◌, ltb, ◌∷◌, ◌++◌, arith, refl, ap, sym, ◌∙◌, Bool-cases, inl, inr}
use mathlib.Core.List.{append_assoc}
use near_runtime_rs.FreeList.Defs.{FreeListIndex}
use near_runtime_rs.TreeMap.Shape.{
  Shape, leaf, branch, height, occurs, size, keys, lifted_left, lifted_right, lean_left, lean_right,
  balanced,
}

-- A property of trees that holds of no leaf in particular: a number or a list that a rotation keeps.
module _ {K A : Type 0} (f : Shape K → A)
    (cong_l : (i : FreeListIndex) (k : K) (l l' r : Shape K)
      → f l ≡ f l'
      → f (branch i k l r) ≡ f (branch i k l' r))
    (cong_r : (i : FreeListIndex) (k : K) (l r r' : Shape K)
      → f r ≡ f r'
      → f (branch i k l r) ≡ f (branch i k l r'))
    (turn : (i j : FreeListIndex) (k m : K) (a b c : Shape K)
      → f (branch j m a (branch i k b c)) ≡ f (branch i k (branch j m a b) c)) where
  lifted_left_kept :
      (i : FreeListIndex) (k : K) (l r : Shape K) → f (lifted_left i k l r) ≡ f (branch i k l r)
  unfolding lifted_left
  lifted_left_kept i k leaf r = refl
  lifted_left_kept i k (branch j m a b) r = turn i j k m a b r

  lifted_right_kept :
      (i : FreeListIndex) (k : K) (l r : Shape K) → f (lifted_right i k l r) ≡ f (branch i k l r)
  unfolding lifted_right
  lifted_right_kept i k l leaf = refl
  lifted_right_kept i k l (branch j m a b) = sym (turn j i m k l a b)

  lean_left_kept : (t : Shape K) → f (lean_left t) ≡ f t
  unfolding lean_left
  lean_left_kept leaf = refl
  lean_left_kept (branch j m a b) = elim (Bool-cases (ltb (height a) (height b))) [
    | inl e ↦ rw e (lifted_right_kept j m a b)
    | inr e ↦ rw e refl
  ]

  lean_right_kept : (t : Shape K) → f (lean_right t) ≡ f t
  unfolding lean_right
  lean_right_kept leaf = refl
  lean_right_kept (branch j m a b) = elim (Bool-cases (ltb (height b) (height a))) [
    | inl e ↦ rw e (lifted_left_kept j m a b)
    | inr e ↦ rw e refl
  ]

  pub balanced_kept :
      (i : FreeListIndex) (k : K) (l r : Shape K) → f (balanced i k l r) ≡ f (branch i k l r)
  unfolding balanced
  balanced_kept i k l r = elim (Bool-cases (ltb (height r + 1) (height l))) [
    | inl e ↦
        rw e
          (lifted_left_kept i k (lean_left l) r ∙ cong_l i k (lean_left l) l r (lean_left_kept l))
    | inr e ↦ elim (Bool-cases (ltb (height l + 1) (height r))) [
      | inl e' ↦
          rw (e, e')
            (lifted_right_kept i k l (lean_right r)
              ∙ cong_r i k l (lean_right r) r (lean_right_kept r))
      | inr e' ↦ rw (e, e') refl
    ]
  ]

module _ {K : Type 0} (i : FreeListIndex) (k : K) (l r : Shape K) where
  pub occurs-balanced :
      (s : FreeListIndex) → occurs s (balanced i k l r) ≡ occurs s (branch i k l r)
  occurs-balanced s =
      balanced_kept (occurs s) (λ i k l l' r e. omega (arith, e)) (λ i k l r r' e. omega (arith, e))
        (λ i j k m a b c. omega arith) i k l r

  pub size-balanced : size (balanced i k l r) ≡ size (branch i k l r)
  size-balanced =
      balanced_kept size (λ i k l l' r e. omega (arith, e)) (λ i k l r r' e. omega (arith, e))
        (λ i j k m a b c. omega arith) i k l r

  pub keys-balanced : keys (balanced i k l r) ≡ keys (branch i k l r)
  keys-balanced =
      balanced_kept keys (λ i k l l' r e. ap (λ xs. xs ++ (k ∷ keys r)) e)
        (λ i k l r r' e. ap (λ xs. keys l ++ (k ∷ xs)) e)
        (λ i j k m a b c. sym (append_assoc (keys a) (m ∷ keys b) (k ∷ keys c))) i k l r

-- ===== src/TreeMap/Avl.antt =====
-- The heights of siblings differ by at most one, and so the height stays logarithmic
-- (near-sdk/src/store/tree_map/mod.rs).
use near_runtime_rs.Base.{
  ◌+◌, ◌≡◌, ◌≤◌, ltb, true, false, arith, refl, sym, subst, max, Bool-cases, ltb→lt, inl, inr,
}
use near_runtime_rs.FreeList.Defs.{FreeListIndex}
use near_runtime_rs.TreeMap.Ord.{Ord}
use near_runtime_rs.TreeMap.Shape.{
  Shape, leaf, branch, height, lifted_left, lifted_right, lean_left, lean_right, balanced, inserted,
}

module _ {K : Type 0} where
  abbrev pub Avl : Shape K → Type 0
  Avl leaf = Unit
  Avl (branch i k l r) = (height l ≤ height r + 1) × (height r ≤ height l + 1) × Avl l × Avl r

  -- A rebalanced node, whose children differed by at most two.
  pub record Levelled (l r t : Shape K) : Type 0 where
    pub avl : Avl t
    pub least : max (height l) (height r) ≤ height t
    pub most : height t ≤ 1 + max (height l) (height r)
    pub even :
        height l ≤ height r + 1 → height r ≤ height l + 1 → height t ≡ 1 + max (height l) (height r)

  lift_left_levels :
      (i : FreeListIndex) (k : K) (l r : Shape K)
      → Avl l
      → Avl r
      → height l ≡ height r + 2
      → Levelled l r (lifted_left i k (lean_left l) r)
  unfolding lifted_left lifted_right lean_left
  lift_left_levels i k leaf r al ar e = absurd (omega arith)
  lift_left_levels i k (branch j m a leaf) r al ar e = record {
    avl = ground (arith, al, ar, e);
    least = ground (arith, al, e);
    most = ground (arith, al, e);
    even = λ p q. absurd (omega arith);
  }
  lift_left_levels i k (branch j m a (branch q y b c)) r al ar e = record {
    avl = ground (arith, al, ar, e);
    least = ground (arith, al, e);
    most = ground (arith, al, e);
    even = λ p q. absurd (omega arith);
  }

  lift_right_levels :
      (i : FreeListIndex) (k : K) (l r : Shape K)
      → Avl l
      → Avl r
      → height r ≡ height l + 2
      → Levelled l r (lifted_right i k l (lean_right r))
  unfolding lifted_left lifted_right lean_right
  lift_right_levels i k l leaf al ar e = absurd (omega arith)
  lift_right_levels i k l (branch j m leaf a) al ar e = record {
    avl = ground (arith, al, ar, e);
    least = ground (arith, ar, e);
    most = ground (arith, ar, e);
    even = λ p q. absurd (omega arith);
  }
  lift_right_levels i k l (branch j m (branch q y b c) a) al ar e = record {
    avl = ground (arith, al, ar, e);
    least = ground (arith, ar, e);
    most = ground (arith, ar, e);
    even = λ p q. absurd (omega arith);
  }

  pub balanced_levels :
      (i : FreeListIndex) (k : K) (l r : Shape K)
      → Avl l
      → Avl r
      → height l ≤ height r + 2
      → height r ≤ height l + 2
      → Levelled l r (balanced i k l r)
  unfolding balanced
  balanced_levels i k l r al ar p q = elim (Bool-cases (ltb (height r + 1) (height l))) [
    | inl t ↦
        rw t (lift_left_levels i k l r al ar (omega (arith, ltb→lt (height r + 1) (height l) t)))
    | inr t ↦ elim (Bool-cases (ltb (height l + 1) (height r))) [
      | inl t' ↦
          rw (t, t')
            (lift_right_levels i k l r al ar (omega (arith, ltb→lt (height l + 1) (height r) t')))
      | inr t' ↦
          rw (t, t')
            (record {
              avl = ground (arith, t, t', al, ar);
              least = omega arith;
              most = omega arith;
              even = λ _ _. refl;
            })
    ]
  ]

  -- A subtree that grew by at most one, and was rebalanced with its sibling.
  grown_left :
      (l l' r t : Shape K)
      → height l ≤ height l'
      → height l' ≤ height l + 1
      → height l ≤ height r + 1
      → height r ≤ height l + 1
      → Levelled l' r t
      → Avl t
        × (1 + max (height l) (height r) ≤ height t)
        × (height t ≤ 1 + max (height l) (height r) + 1)
  grown_left l l' r t p q u w v = (v.avl, ground (arith, v.least, v.even), omega (arith, v.most))

  grown_right :
      (l r r' t : Shape K)
      → height r ≤ height r'
      → height r' ≤ height r + 1
      → height l ≤ height r + 1
      → height r ≤ height l + 1
      → Levelled l r' t
      → Avl t
        × (1 + max (height l) (height r) ≤ height t)
        × (height t ≤ 1 + max (height l) (height r) + 1)
  grown_right l r r' t p q u w v = (v.avl, ground (arith, v.least, v.even), omega (arith, v.most))

module _ {K : Type 0} ⦃o : Ord K⦄ where
  -- The three cases of an insertion at a node.
  module _ (q : K) (m i : FreeListIndex) (k : K) (l r : Shape K) where
    pub inserted_present : o.eq_key q k ≡ true → inserted q m (branch i k l r) ≡ branch i k l r
    unfolding inserted
    inserted_present t = ground (arith, t)

    pub inserted_less :
        o.eq_key q k ≡ false
        → o.lt_key q k ≡ true
        → inserted q m (branch i k l r) ≡ balanced i k (inserted q m l) r
    unfolding inserted
    inserted_less t t' = ground (arith, t, t')

    pub inserted_greater :
        o.eq_key q k ≡ false
        → o.lt_key q k ≡ false
        → inserted q m (branch i k l r) ≡ balanced i k l (inserted q m r)
    unfolding inserted
    inserted_greater t t' = ground (arith, t, t')

  -- An insertion keeps the balance, and the height grows by at most one.
  pub inserted_levels :
      (q : K) (m : FreeListIndex) (t : Shape K)
      → Avl t
      → Avl (inserted q m t)
        × (height t ≤ height (inserted q m t))
        × (height (inserted q m t) ≤ height t + 1)
  unfolding inserted
  inserted_levels q m leaf a = omega arith
  inserted_levels q m (branch i k l r) a =
      let Grows = λ (t : Shape K).
        Avl t
        × (1 + max (height l) (height r) ≤ height t)
        × (height t ≤ 1 + max (height l) (height r) + 1) in
      elim (Bool-cases (o.eq_key q k)) [
        | inl t ↦ subst Grows (sym (inserted_present q m i k l r t)) (a, omega arith, omega arith)
        | inr t ↦ elim (Bool-cases (o.lt_key q k)) [
          | inl t' ↦
              let b = inserted_levels q m l a.2 in
              subst Grows (sym (inserted_less q m i k l r t t')) (
                grown_left l (inserted q m l) r (balanced i k (inserted q m l) r) b.1 b.2 a.0 a.1 (
                  balanced_levels i k (inserted q m l) r b.0 a.3 (omega (arith, b.2, a.0))
                    (omega (arith, b.1, a.1))))
          | inr t' ↦
              let b = inserted_levels q m r a.3 in
              subst Grows (sym (inserted_greater q m i k l r t t')) (
                grown_right l r (inserted q m r) (balanced i k l (inserted q m r)) b.1 b.2 a.0 a.1 (
                  balanced_levels i k l (inserted q m r) a.2 b.0 (omega (arith, b.1, a.0))
                    (omega (arith, b.2, a.1))))
        ]
      ]

-- ===== src/TreeMap/Place.antt =====
-- A subtree in its place, and another one put there (near-sdk/src/store/tree_map/mod.rs).
use near_runtime_rs.Base.{
  List, [], ◌+◌, ◌≡◌, ◌≢◌, ◌≤◌, true, false, some, ◌∷◌, arith, refl, sym, ap, ◌∙◌, subst,
  Bool-cases, inl, inr, ◌⊎◌,
}
use near_runtime_rs.FreeList.Defs.{FreeListIndex, get}
use near_runtime_rs.TreeMap.Ord.{Ord}
use near_runtime_rs.TreeMap.Tree.{Nodes}
use near_runtime_rs.TreeMap.Shape.{Shape, leaf, branch, link, occurs, size, keys}
use near_runtime_rs.TreeMap.Represents.{node_of, Represents, Represents-frame, Unique}
use near_runtime_rs.TreeMap.SortedKeys.{
  AllBelow, AllAbove, Sorted, Sorted-halves, has_key, has_key-append,
}
use near_runtime_rs.TreeMap.Avl.{Avl}
use near_runtime_rs.TreeMap.Rebuild.{Stale}

module _ {K : Type 0} ⦃o : Ord K⦄ where
  -- How the keys on either side compare with the one between.
  pub below_tests :
      (k a : K) (xs : List K)
      → AllBelow k xs
      → has_key a xs ≡ true
      → (o.eq_key k a ≡ false) × (o.lt_key k a ≡ false) × (o.lt_key a k ≡ true)
  unfolding has_key
  below_tests k a [] b h = absurd (ground (arith, h))
  below_tests k a (x ∷ xs) b h = elim (Bool-cases (o.eq_key a x)) [
    | inl t ↦
        ground (arith, t, o.eq_sound a x t, b.0, o.lt_trans a k a, o.lt_irrefl a, o.eq_sound k a)
    | inr f ↦ below_tests k a xs b.1 (ground (arith, f, h))
  ]

  pub above_tests :
      (k a : K) (xs : List K)
      → AllAbove k xs
      → has_key a xs ≡ true
      → (o.eq_key k a ≡ false) × (o.lt_key k a ≡ true) × (o.lt_key a k ≡ false)
  unfolding has_key
  above_tests k a [] b h = absurd (ground (arith, h))
  above_tests k a (x ∷ xs) b h = elim (Bool-cases (o.eq_key a x)) [
    | inl t ↦
        ground (arith, t, o.eq_sound a x t, b.0, o.lt_trans k a k, o.lt_irrefl k, o.eq_sound k a)
    | inr f ↦ above_tests k a xs b.1 (ground (arith, f, h))
  ]

  -- The search for the key ends at that subtree.
  abbrev pub At : K → Shape K → Shape K → Type 0
  At a sub leaf = ⊥
  At a sub (branch i k l r) =
      ((o.eq_key k a ≡ true) × (branch i k l r ≡ sub))
      ⊎ ((o.eq_key k a ≡ false) × (o.lt_key k a ≡ false) × At a sub l)
      ⊎ ((o.eq_key k a ≡ false) × (o.lt_key k a ≡ true) × At a sub r)

  -- Another subtree where the search for the key ends.
  unfoldable pub replace : K → Shape K → Shape K → Shape K
  replace a new leaf = leaf
  replace a new (branch i k l r) = elim (o.eq_key k a) [
    | true ↦ new
    | false ↦ elim (o.lt_key k a) [
      | false ↦ branch i k (replace a new l) r
      | true ↦ branch i k l (replace a new r)
    ]
  ]

  pub occurs-replace :
      (a : K) (sub new t : Shape K) (j : FreeListIndex)
      → At a sub t
      → occurs j (replace a new t) + occurs j sub ≡ occurs j t + occurs j new
  unfolding replace
  occurs-replace a sub new leaf j p = absurd p
  occurs-replace a sub new (branch i k l r) j (inl (eq, is)) =
      let same = ap (occurs j) is in ground (arith, eq, same)
  occurs-replace a sub new (branch i k l r) j (inr (inl (eq, lt, p))) =
      ground (arith, eq, lt, occurs-replace a sub new l j p)
  occurs-replace a sub new (branch i k l r) j (inr (inr (eq, lt, p))) =
      ground (arith, eq, lt, occurs-replace a sub new r j p)

  pub size-replace :
      (a : K) (sub new t : Shape K)
      → At a sub t
      → size (replace a new t) + size sub ≡ size t + size new
  unfolding replace
  size-replace a sub new leaf p = absurd p
  size-replace a sub new (branch i k l r) (inl (eq, is)) =
      let same = ap size is in ground (arith, eq, same)
  size-replace a sub new (branch i k l r) (inr (inl (eq, lt, p))) =
      ground (arith, eq, lt, size-replace a sub new l p)
  size-replace a sub new (branch i k l r) (inr (inr (eq, lt, p))) =
      ground (arith, eq, lt, size-replace a sub new r p)

  -- What is in the subtree is in the tree.
  pub occurs-At :
      (a : K) (sub t : Shape K) (j : FreeListIndex) → At a sub t → occurs j sub ≤ occurs j t
  occurs-At a sub leaf j p = absurd p
  occurs-At a sub (branch i k l r) j (inl (eq, is)) =
      let same = ap (occurs j) is in omega (arith, same)
  occurs-At a sub (branch i k l r) j (inr (inl (eq, lt, p))) = omega (arith, occurs-At a sub l j p)
  occurs-At a sub (branch i k l r) j (inr (inr (eq, lt, p))) = omega (arith, occurs-At a sub r j p)

  pub has_key-At :
      (a q : K) (sub t : Shape K)
      → At a sub t
      → has_key q (keys sub) ≡ true
      → has_key q (keys t) ≡ true
  unfolding has_key
  has_key-At a q sub leaf p h = absurd p
  has_key-At a q sub (branch i k l r) (inl (eq, is)) h = ap (λ t. has_key q (keys t)) is ∙ h
  has_key-At a q sub (branch i k l r) (inr (inl (eq, lt, p))) h =
      ground (arith, has_key-append q (keys l) (k ∷ keys r), has_key-At a q sub l p h)
  has_key-At a q sub (branch i k l r) (inr (inr (eq, lt, p))) h =
      ground (arith, has_key-append q (keys l) (k ∷ keys r), has_key-At a q sub r p h)

  pub Represents-At :
      (a : K) (h : Nodes K) (sub t : Shape K) → At a sub t → Represents h t → Represents h sub
  Represents-At a h sub leaf p e = absurd p
  Represents-At a h sub (branch i k l r) (inl (eq, is)) e = subst (Represents h) is e
  Represents-At a h sub (branch i k l r) (inr (inl (eq, lt, p))) e = Represents-At a h sub l p e.1
  Represents-At a h sub (branch i k l r) (inr (inr (eq, lt, p))) e = Represents-At a h sub r p e.2

  pub Sorted-At : (a : K) (sub t : Shape K) → At a sub t → Sorted (keys t) → Sorted (keys sub)
  Sorted-At a sub leaf p s = absurd p
  Sorted-At a sub (branch i k l r) (inl (eq, is)) s = subst (λ t. Sorted (keys t)) is s
  Sorted-At a sub (branch i k l r) (inr (inl (eq, lt, p))) s =
      Sorted-At a sub l p (Sorted-halves (keys l) k (keys r) s).0
  Sorted-At a sub (branch i k l r) (inr (inr (eq, lt, p))) s =
      Sorted-At a sub r p (Sorted-halves (keys l) k (keys r) s).3

  module _ (a : K) (new : Shape K) (i : FreeListIndex) (k : K) (l r : Shape K) where
    pub replace_here : o.eq_key k a ≡ true → replace a new (branch i k l r) ≡ new
    unfolding replace
    replace_here eq = ground (arith, eq)

    pub replace_left :
        o.eq_key k a ≡ false
        → o.lt_key k a ≡ false
        → replace a new (branch i k l r) ≡ branch i k (replace a new l) r
    unfolding replace
    replace_left eq lt = ground (arith, eq, lt)

    pub replace_right :
        o.eq_key k a ≡ false
        → o.lt_key k a ≡ true
        → replace a new (branch i k l r) ≡ branch i k l (replace a new r)
    unfolding replace
    replace_right eq lt = ground (arith, eq, lt)

  pub Avl-At : (a : K) (sub t : Shape K) → At a sub t → Avl t → Avl sub
  Avl-At a sub leaf p v = absurd p
  Avl-At a sub (branch i k l r) (inl (eq, is)) v = subst Avl is v
  Avl-At a sub (branch i k l r) (inr (inl (eq, lt, p))) v = Avl-At a sub l p v.2
  Avl-At a sub (branch i k l r) (inr (inr (eq, lt, p))) v = Avl-At a sub r p v.3

  -- If the nodes outside of the subtree are as they were, the whole tree is stale where the new
  -- subtree is.
  pub Stale-replace :
      (a q : K) (h h' : Nodes K) (sub new t : Shape K)
      → At a sub t
      → Represents h t
      → Unique t
      → Sorted (keys t)
      → has_key q (keys sub) ≡ true
      → link new ≡ link sub
      → Stale q h' new
      → ((j : FreeListIndex) → occurs j t ≢ 0 → occurs j sub ≡ 0 → get j h' ≡ get j h)
      → (Stale q h' (replace a new t)) × (link (replace a new t) ≡ link t)
  Stale-replace a q h h' sub new leaf p e u s hq lk st same = absurd p
  Stale-replace a q h h' sub new (branch i k l r) (inl (eq, is)) e u s hq lk st same =
      subst (λ t. Stale q h' t × (link t ≡ some i)) (sym (replace_here a new i k l r eq))
        (st, lk ∙ sym (ap link is))
  Stale-replace a q h h' sub new (branch i k l r) (inr (inl (eq, lt, p))) e u s hq lk st same =
      let halves = Sorted-halves (keys l) k (keys r) s in
      let tests = below_tests k q (keys l) halves.1 (has_key-At a q sub l p hq) in
      let ui = u i in
      let below =
        Stale-replace a q h h' sub new l p e.1 (λ j. omega (arith, u j)) halves.0 hq lk st
          (λ j ne out. same j (omega (arith, ne)) out) in
      let other =
        Represents-frame h h' r
          (λ j ne. same j (omega (arith, ne)) (omega (arith, u j, occurs-At a sub l j p, ne)))
          e.2 in
      let at = same i (ground arith) (ground (arith, ui, occurs-At a sub l i p)) ∙ e.0 in
      subst (λ t. Stale q h' t × (link t ≡ some i)) (sym (replace_left a new i k l r eq lt))
        (
          (
            (node_of k l r).ht,
            at
                ∙ ap
                    (λ c. some (record { key = k; lft = c; rgt = link r; ht = (node_of k l r).ht }))
                    (sym below.1),
            inr (inl (tests.0, tests.2, below.0, other)),
          ),
          refl,
        )
  Stale-replace a q h h' sub new (branch i k l r) (inr (inr (eq, lt, p))) e u s hq lk st same =
      let halves = Sorted-halves (keys l) k (keys r) s in
      let tests = above_tests k q (keys r) halves.2 (has_key-At a q sub r p hq) in
      let ui = u i in
      let below =
        Stale-replace a q h h' sub new r p e.2 (λ j. omega (arith, u j)) halves.3 hq lk st
          (λ j ne out. same j (omega (arith, ne)) out) in
      let other =
        Represents-frame h h' l
          (λ j ne. same j (omega (arith, ne)) (omega (arith, u j, occurs-At a sub r j p, ne)))
          e.1 in
      let at = same i (ground arith) (ground (arith, ui, occurs-At a sub r i p)) ∙ e.0 in
      subst (λ t. Stale q h' t × (link t ≡ some i)) (sym (replace_right a new i k l r eq lt))
        (
          (
            (node_of k l r).ht,
            at
                ∙ ap
                    (λ c. some (record { key = k; lft = link l; rgt = c; ht = (node_of k l r).ht }))
                    (sym below.1),
            inr (inr (tests.0, tests.2, other, below.0)),
          ),
          refl,
        )

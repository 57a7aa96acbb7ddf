-- ===== src/TreeMap/Rebuild.antt =====
-- The way from the root to a key and back rebuilds the tree, after a change at the end of that way
-- (near-sdk/src/store/tree_map/mod.rs, check_balance).
use near_runtime_rs.Base.{
  ℕ, zero, suc, List, ◌≡◌, ◌≤◌, ◌<◌, true, false, Option, some, Outcome, done, arith, refl, sym, ap,
  ◌∙◌, u32_size, ◌>>=◌, inl, inr, ◌⊎◌,
}
use near_runtime_rs.FreeList.Defs.{FreeListIndex, get}
use near_runtime_rs.FreeList.Invariant.{IsFreeList}
use near_runtime_rs.TreeMap.Ord.{Ord}
use near_runtime_rs.TreeMap.Tree.{Node, Nodes, Op, Panic, node}
use near_runtime_rs.TreeMap.Shape.{Shape, leaf, branch, height, link, occurs, size, keys, balanced}
use near_runtime_rs.TreeMap.Balance.{settle}
use near_runtime_rs.TreeMap.Represents.{Represents, Represents-frame, Unique, Builds}
use near_runtime_rs.TreeMap.Rebalanced.{occurs-balanced, size-balanced, keys-balanced}
use near_runtime_rs.TreeMap.Enforce.{settle_lem, retell}
use near_runtime_rs.TreeMap.Remove.{check_below, check_node, check_balance}

same_link : (i j : FreeListIndex) → some i ≡ some j → j ≡ i
same_link i j e = cc

module _ {K : Type 0} ⦃o : Ord K⦄ where
  -- The nodes on the way to the key are rebalanced, from the last one up.
  unfoldable pub rebuilt : K → Shape K → Shape K
  rebuilt q leaf = leaf
  rebuilt q (branch i k l r) = elim (o.eq_key k q) [
    | true ↦ balanced i k l r
    | false ↦ elim (o.lt_key q k) [
      | true ↦ balanced i k (rebuilt q l) r
      | false ↦ balanced i k l (rebuilt q r)
    ]
  ]

  pub occurs-rebuilt :
      (q : K) (t : Shape K) (j : FreeListIndex) → occurs j (rebuilt q t) ≡ occurs j t
  unfolding rebuilt
  occurs-rebuilt q leaf j = refl
  occurs-rebuilt q (branch i k l r) j = ground (
    arith,
    occurs-rebuilt q l j,
    occurs-rebuilt q r j,
    occurs-balanced i k l r j,
    occurs-balanced i k (rebuilt q l) r j,
    occurs-balanced i k l (rebuilt q r) j,
  )

  pub size-rebuilt : (q : K) (t : Shape K) → size (rebuilt q t) ≡ size t
  unfolding rebuilt
  size-rebuilt q leaf = refl
  size-rebuilt q (branch i k l r) = ground (
    arith,
    size-rebuilt q l,
    size-rebuilt q r,
    size-balanced i k l r,
    size-balanced i k (rebuilt q l) r,
    size-balanced i k l (rebuilt q r),
  )

  pub keys-rebuilt : (q : K) (t : Shape K) → keys (rebuilt q t) ≡ keys t
  unfolding rebuilt
  keys-rebuilt q leaf = refl
  keys-rebuilt q (branch i k l r) = ground (
    arith,
    keys-rebuilt q l,
    keys-rebuilt q r,
    keys-balanced i k l r,
    keys-balanced i k (rebuilt q l) r,
    keys-balanced i k l (rebuilt q r),
  )

  abbrev pub stale_node : K → Shape K → Shape K → ℕ → Node K
  stale_node k l r x = record { key = k; lft = link l; rgt = link r; ht = x }

  -- The nodes stand for the tree, but for the heights on the way to the key, which is in the tree.
  abbrev pub Stale : K → Nodes K → Shape K → Type 0
  Stale q h leaf = ⊥
  Stale q h (branch i k l r) =
      (x : ℕ) × (get i h ≡ some (stale_node k l r x))
      × (((o.eq_key k q ≡ true) × Represents h l × Represents h r)
          ⊎ ((o.eq_key k q ≡ false) × (o.lt_key q k ≡ true) × Stale q h l × Represents h r)
          ⊎ ((o.eq_key k q ≡ false) × (o.lt_key q k ≡ false) × Represents h l × Stale q h r))

  module _ (q : K) (h : Nodes K) (free : List FreeListIndex) (i : FreeListIndex) (k : K)
      (l r : Shape K) (x : ℕ) (e : get i h ≡ some (stale_node k l r x))
      (u : Unique (branch i k l r)) (s : size (branch i k l r) < u32_size) where
    back_left :
        (l' : Shape K) {res : Outcome Panic (FreeListIndex × Nodes K)}
        → Represents h r
        → ((j : FreeListIndex) → occurs j l' ≡ occurs j l)
        → size l' ≡ size l
        → (b : Builds h l' free res)
        → Builds h
            (balanced i k l' r)
            free
            (settle (record { key = k; lft = some b.root; rgt = link r; ht = x }) i b.after)
    back_left l' er occ sz b =
        let ui = u i in
        let oi = occ i in
        let at : get i b.after ≡ some (stale_node k l r x) =
          b.frame i (ground (arith, ui, oi)) ∙ e in
        let er' =
          Represents-frame h b.after r (λ p ne. b.frame p (ground (arith, u p, occ p, ne))) er in
        let c =
          settle_lem b.after free i (stale_node k l r x) k l' r x b.valid at b.represents er'
            (λ p. omega (arith, u p, occ p)) (omega (arith, sz, s)) in
        record {
          root = c.root;
          after = c.after;
          returns =
              ap (λ a. settle (record { key = k; lft = a; rgt = link r; ht = x }) i b.after)
                (sym b.is_root)
              ∙ c.returns;
          is_root = c.is_root;
          represents = c.represents;
          frame =
              λ p out. c.frame p out ∙ b.frame p (ground (arith, out, occurs-balanced i k l' r p));
          valid = c.valid;
        }

    back_right :
        (r' : Shape K) {res : Outcome Panic (FreeListIndex × Nodes K)}
        → Represents h l
        → ((j : FreeListIndex) → occurs j r' ≡ occurs j r)
        → size r' ≡ size r
        → (b : Builds h r' free res)
        → Builds h
            (balanced i k l r')
            free
            (settle (record { key = k; lft = link l; rgt = some b.root; ht = x }) i b.after)
    back_right r' el occ sz b =
        let ui = u i in
        let oi = occ i in
        let at : get i b.after ≡ some (stale_node k l r x) =
          b.frame i (ground (arith, ui, oi)) ∙ e in
        let el' =
          Represents-frame h b.after l (λ p ne. b.frame p (ground (arith, u p, occ p, ne))) el in
        let c =
          settle_lem b.after free i (stale_node k l r x) k l r' x b.valid at el' b.represents
            (λ p. omega (arith, u p, occ p)) (omega (arith, sz, s)) in
        record {
          root = c.root;
          after = c.after;
          returns =
              ap (λ a. settle (record { key = k; lft = link l; rgt = a; ht = x }) i b.after)
                (sym b.is_root)
              ∙ c.returns;
          is_root = c.is_root;
          represents = c.represents;
          frame =
              λ p out. c.frame p out ∙ b.frame p (ground (arith, out, occurs-balanced i k l r' p));
          valid = c.valid;
        }

  -- With that much fuel `check_balance` rebuilds the tree.
  abbrev Rebuilds : K → Nodes K → List FreeListIndex → ℕ → Shape K → Type 0
  Rebuilds q h free fuel t =
      (i : FreeListIndex)
      → link t ≡ some i
      → height t ≤ fuel
      → Stale q h t
      → Unique t
      → size t < u32_size
      → Builds h (rebuilt q t) free (check_balance fuel i q h)

  pub Stale-link :
      (q : K) (h : Nodes K) (t : Shape K) → Stale q h t → (c : FreeListIndex) × (link t ≡ some c)
  Stale-link q h leaf st = absurd st
  Stale-link q h (branch i k l r) st = (i, refl)

  check_below_run :
      {A : Type 0} (rec : FreeListIndex → Op K FreeListIndex) (c root : FreeListIndex)
      (h after : Nodes K) (f : Option FreeListIndex → Op K A)
      → rec c h ≡ done (root, after)
      → (check_below rec (some c) >>= f) h ≡ f (some root) after
  check_below_run rec c root h after f run = ground (arith, run)

  module _ (fuel : ℕ) (q : K) (h : Nodes K) (i : FreeListIndex) (n : Node K)
      (e : node h i ≡ some n) where
    check_found :
        check_balance (suc fuel) i q h ≡ check_node (λ c. check_balance fuel c q) i q (some n) h
    unfolding check_balance
    check_found = ap (λ m. check_node (λ c. check_balance fuel c q) i q m h) e

    check_here : o.eq_key n.key q ≡ true → check_balance (suc fuel) i q h ≡ settle n i h
    unfolding check_node
    check_here eq = check_found ∙ rw eq refl

    check_left :
        (c root : FreeListIndex) (after : Nodes K)
        → o.eq_key n.key q ≡ false
        → o.lt_key q n.key ≡ true
        → n.lft ≡ some c
        → check_balance fuel c q h ≡ done (root, after)
        → check_balance (suc fuel) i q h ≡ settle (record n { lft = some root }) i after
    unfolding check_node
    check_left c root after eq lt lc run =
        check_found
        ∙ rw (eq, lt, lc)
            (check_below_run (λ a. check_balance fuel a q) c root h after
              (λ a. settle (record n { lft = a }) i) run)

    check_right :
        (c root : FreeListIndex) (after : Nodes K)
        → o.eq_key n.key q ≡ false
        → o.lt_key q n.key ≡ false
        → n.rgt ≡ some c
        → check_balance fuel c q h ≡ done (root, after)
        → check_balance (suc fuel) i q h ≡ settle (record n { rgt = some root }) i after
    unfolding check_node
    check_right c root after eq lt lc run =
        check_found
        ∙ rw (eq, lt, lc)
            (check_below_run (λ a. check_balance fuel a q) c root h after
              (λ a. settle (record n { rgt = a }) i) run)

  pub check_balance_lem :
      (q : K) (h : Nodes K) (free : List FreeListIndex)
      → IsFreeList h free
      → (fuel : ℕ) (t : Shape K) → Rebuilds q h free fuel t
  unfolding check_balance rebuilt
  check_balance_lem q h free wf fuel leaf j is f st u s = absurd st
  check_balance_lem q h free wf zero (branch i k l r) j is f st u s = absurd (omega (arith, f))
  check_balance_lem q h free wf (suc fuel) (branch i k l r) j is f (x, e, inl (eq, el, er)) u s =
      retell (ground (arith, eq))
        (ap (λ a. check_balance (suc fuel) a q h) (same_link i j is)
          ∙ check_here fuel q h i (stale_node k l r x) e eq)
        (settle_lem h free i (stale_node k l r x) k l r x wf e el er u s)
  check_balance_lem q h free wf (suc fuel) (branch i k l r) j is f
        (x, e, inr (inl (eq, lt, el, er))) u s =
      let (c, lc) = Stale-link q h l el in
      let b =
        check_balance_lem q h free wf fuel l c lc (omega (arith, f)) el (λ p. omega (arith, u p))
          (omega (arith, s)) in
      retell (ground (arith, eq, lt))
        (ap (λ a. check_balance (suc fuel) a q h) (same_link i j is)
          ∙ check_left fuel q h i (stale_node k l r x) e c b.root b.after eq lt lc b.returns)
        (back_left q h free i k l r x e u s (rebuilt q l) er (occurs-rebuilt q l) (size-rebuilt q l)
          b)
  check_balance_lem q h free wf (suc fuel) (branch i k l r) j is f
        (x, e, inr (inr (eq, lt, el, er))) u s =
      let (c, lc) = Stale-link q h r er in
      let b =
        check_balance_lem q h free wf fuel r c lc (omega (arith, f)) er (λ p. omega (arith, u p))
          (omega (arith, s)) in
      retell (ground (arith, eq, lt))
        (ap (λ a. check_balance (suc fuel) a q h) (same_link i j is)
          ∙ check_right fuel q h i (stale_node k l r x) e c b.root b.after eq lt lc b.returns)
        (back_right q h free i k l r x e u s (rebuilt q r) el (occurs-rebuilt q r)
          (size-rebuilt q r) b)

-- ===== src/TreeMap/Insertion.antt =====
-- An insertion into the nodes does what it does on the tree that they stand for
-- (near-sdk/src/store/tree_map/mod.rs, insert_at).
use near_runtime_rs.Base.{
  ℕ, zero, suc, List, ◌+◌, ◌≡◌, ◌≢◌, ◌≤◌, ◌<◌, ◌==◌, if◌then◌else◌, true, false, some, arith, refl,
  sym, ap, ◌∙◌, subst, max, u32_size, Outcome, done, Bool-cases, ℕ_discrete, inl, inr,
}
use near_runtime_rs.FreeList.Defs.{FreeListIndex, get}
use near_runtime_rs.FreeList.Defs as FreeList
use near_runtime_rs.FreeList.Invariant.{IsFreeList}
use near_runtime_rs.FreeList.Insert.{Inserted}
use near_runtime_rs.TreeMap.Ord.{Ord}
use near_runtime_rs.TreeMap.Tree.{Nodes, Panic, of, on_list}
use near_runtime_rs.TreeMap.Shape.{
  Shape, leaf, branch, height, link, occurs, size, balanced, inserted,
}
use near_runtime_rs.TreeMap.Balance.{settle, insert_below, insert_at, insert_root}
use near_runtime_rs.TreeMap.Represents.{
  vacant-occurs, node_of, Represents, Represents-frame, Unique, Builds,
}
use near_runtime_rs.TreeMap.Rebalanced.{occurs-balanced, size-balanced}
use near_runtime_rs.TreeMap.Enforce.{settle_lem, retell}

module _ {K : Type 0} ⦃o : Ord K⦄ where
  -- The key is at no node of the tree.
  abbrev pub Absent : K → Shape K → Type 0
  Absent q leaf = Unit
  Absent q (branch i k l r) = (o.eq_key q k ≡ false) × Absent q l × Absent q r

  pub occurs-inserted :
      (q : K) (m s : FreeListIndex) (t : Shape K)
      → Absent q t
      → occurs s (inserted q m t) ≡ occurs s t + (if s == m then 1 else 0)
  unfolding inserted
  occurs-inserted q m s leaf a = omega arith
  occurs-inserted q m s (branch i k l r) a = ground (
    arith,
    occurs-inserted q m s l,
    occurs-inserted q m s r,
    occurs-balanced i k (inserted q m l) r s,
    occurs-balanced i k l (inserted q m r) s,
  )

  pub size-inserted :
      (q : K) (m : FreeListIndex) (t : Shape K) → Absent q t → size (inserted q m t) ≡ size t + 1
  unfolding inserted
  size-inserted q m leaf a = omega arith
  size-inserted q m (branch i k l r) a = ground (
    arith,
    size-inserted q m l,
    size-inserted q m r,
    size-balanced i k (inserted q m l) r,
    size-balanced i k l (inserted q m r),
  )

  -- A slot that was in neither subtree can be added to one of them.
  Unique-left :
      (m i : FreeListIndex) (k : K) (l r l' : Shape K)
      → Unique (branch i k l r)
      → i ≢ m
      → occurs m l ≡ 0
      → occurs m r ≡ 0
      → ((s : FreeListIndex) → occurs s l' ≡ occurs s l + (if s == m then 1 else 0))
      → Unique (branch i k l' r)
  Unique-left m i k l r l' u ne ml mr occ p = elim (ℕ_discrete p m) [
    | yes e ↦
        subst (λ x. occurs x (branch i k l' r) ≤ 1) (sym e)
          (let om = occ m in
            let tm : ◌≡◌ {A = ℕ} (if m == m then 1 else 0) 1 = ground arith in
            let tn : ◌≡◌ {A = ℕ} (if m == i then 1 else 0) 0 = ground (arith, ne) in omega arith)
    | no e ↦
        let up = u p in
        let op = occ p in
        let tp : ◌≡◌ {A = ℕ} (if p == m then 1 else 0) 0 = ground (arith, e) in omega arith
  ]

  Unique-right :
      (m i : FreeListIndex) (k : K) (l r r' : Shape K)
      → Unique (branch i k l r)
      → i ≢ m
      → occurs m l ≡ 0
      → occurs m r ≡ 0
      → ((s : FreeListIndex) → occurs s r' ≡ occurs s r + (if s == m then 1 else 0))
      → Unique (branch i k l r')
  Unique-right m i k l r r' u ne ml mr occ p = elim (ℕ_discrete p m) [
    | yes e ↦
        subst (λ x. occurs x (branch i k l r') ≤ 1) (sym e)
          (let om = occ m in
            let tm : ◌≡◌ {A = ℕ} (if m == m then 1 else 0) 1 = ground arith in
            let tn : ◌≡◌ {A = ℕ} (if m == i then 1 else 0) 0 = ground (arith, ne) in omega arith)
    | no e ↦
        let up = u p in
        let op = occ p in
        let tp : ◌≡◌ {A = ℕ} (if p == m then 1 else 0) 0 = ground (arith, e) in omega arith
  ]

  -- One insertion into the free list, into the slot `m`, where nothing was.
  module _ (q : K) (m : FreeListIndex) (h h1 : Nodes K) (free1 : List FreeListIndex)
      (wf : IsFreeList h1 free1) (ins : FreeList.insert (of q) h ≡ done (m, h1))
      (new : Inserted (of q) m h h1) where
    leaf_inserted : Builds h (branch m q leaf leaf) free1 (on_list (FreeList.insert (of q)) h)
    unfolding on_list
    leaf_inserted = record {
      root = m;
      after = h1;
      returns = ground (arith, ins);
      is_root = refl;
      represents = (new.present, tt, tt);
      frame = λ p out. new.others p (λ e. ground (arith, e, out));
      valid = wf;
    }

    -- The way back up from the left child.
    from_left :
        (i : FreeListIndex) (k : K) (l r l' : Shape K) (x : ℕ)
        {res : Outcome Panic (FreeListIndex × Nodes K)}
        → Represents h (branch i k l r)
        → Unique (branch i k l r)
        → size (branch i k l r) + 1 < u32_size
        → ((s : FreeListIndex) → occurs s l' ≡ occurs s l + (if s == m then 1 else 0))
        → size l' ≡ size l + 1
        → (b : Builds h l' free1 res)
        → Builds h
            (balanced i k l' r)
            free1
            (settle (record { key = k; lft = some b.root; rgt = link r; ht = x }) i b.after)
    from_left i k l r l' x e u s occ sz b =
        let nm : i ≢ m = λ p. ground (arith, p, e.0, new.vacant) in
        let mr = vacant-occurs h m r new.vacant e.2 in
        let ml = vacant-occurs h m l new.vacant e.1 in
        let ui = u i in
        let oi = occ i in
        let at : get i b.after ≡ some (node_of k l r) =
          b.frame i (ground (arith, nm, ui, oi)) ∙ e.0 in
        let er =
          Represents-frame h b.after r (λ p ne. b.frame p (ground (arith, u p, occ p, ne, mr)))
            e.2 in
        let c =
          settle_lem b.after free1 i (node_of k l r) k l' r x b.valid at b.represents er
            (Unique-left m i k l r l' u nm ml mr occ) (omega (arith, sz, s)) in
        record {
          root = c.root;
          after = c.after;
          returns =
              ap (λ a. settle (record { key = k; lft = a; rgt = link r; ht = x }) i b.after)
                (sym b.is_root)
              ∙ c.returns;
          is_root = c.is_root;
          represents = c.represents;
          frame =
              λ p out. c.frame p out ∙ b.frame p (ground (arith, out, occurs-balanced i k l' r p));
          valid = c.valid;
        }

    -- The way back up from the right child.
    from_right :
        (i : FreeListIndex) (k : K) (l r r' : Shape K) (x : ℕ)
        {res : Outcome Panic (FreeListIndex × Nodes K)}
        → Represents h (branch i k l r)
        → Unique (branch i k l r)
        → size (branch i k l r) + 1 < u32_size
        → ((s : FreeListIndex) → occurs s r' ≡ occurs s r + (if s == m then 1 else 0))
        → size r' ≡ size r + 1
        → (b : Builds h r' free1 res)
        → Builds h
            (balanced i k l r')
            free1
            (settle (record { key = k; lft = link l; rgt = some b.root; ht = x }) i b.after)
    from_right i k l r r' x e u s occ sz b =
        let nm : i ≢ m = λ p. ground (arith, p, e.0, new.vacant) in
        let mr = vacant-occurs h m r new.vacant e.2 in
        let ml = vacant-occurs h m l new.vacant e.1 in
        let ui = u i in
        let oi = occ i in
        let at : get i b.after ≡ some (node_of k l r) =
          b.frame i (ground (arith, nm, ui, oi)) ∙ e.0 in
        let el =
          Represents-frame h b.after l (λ p ne. b.frame p (ground (arith, u p, occ p, ne, ml)))
            e.1 in
        let c =
          settle_lem b.after free1 i (node_of k l r) k l r' x b.valid at el b.represents
            (Unique-right m i k l r r' u nm ml mr occ) (omega (arith, sz, s)) in
        record {
          root = c.root;
          after = c.after;
          returns =
              ap (λ a. settle (record { key = k; lft = link l; rgt = a; ht = x }) i b.after)
                (sym b.is_root)
              ∙ c.returns;
          is_root = c.is_root;
          represents = c.represents;
          frame =
              λ p out. c.frame p out ∙ b.frame p (ground (arith, out, occurs-balanced i k l r' p));
          valid = c.valid;
        }

    -- With that much fuel an insertion at a node is that of the tree.
    abbrev Correct : ℕ → Type 0
    Correct fuel =
        (i : FreeListIndex) (k : K) (l r : Shape K)
        → height (branch i k l r) ≤ fuel
        → Represents h (branch i k l r)
        → Unique (branch i k l r)
        → Absent q (branch i k l r)
        → size (branch i k l r) + 1 < u32_size
        → Builds h (inserted q m (branch i k l r)) free1 (insert_at fuel (node_of k l r) i q h)

    insert_below_lem :
        (fuel : ℕ)
        → Correct fuel
        → (t : Shape K) → height t ≤ fuel
        → Represents h t
        → Unique t
        → Absent q t
        → size t + 1 < u32_size
        → Builds h (inserted q m t) free1 (insert_below (λ n c. insert_at fuel n c q) (link t) q h)
    unfolding inserted
    insert_below_lem fuel ih leaf f e u a s = leaf_inserted
    insert_below_lem fuel ih (branch i k l r) f e u a s =
        retell refl (ground (arith, e.0)) (ih i k l r f e u a s)

    module _ (fuel : ℕ) (ih : Correct fuel) (i : FreeListIndex) (k : K) (l r : Shape K)
        (f : height (branch i k l r) ≤ suc fuel) (e : Represents h (branch i k l r))
        (u : Unique (branch i k l r)) (a : Absent q (branch i k l r))
        (s : size (branch i k l r) + 1 < u32_size) where
      go_left :
          o.lt_key q k ≡ true
          → Builds h
              (inserted q m (branch i k l r))
              free1
              (insert_at (suc fuel) (node_of k l r) i q h)
      unfolding insert_at inserted
      go_left t =
          let b =
            insert_below_lem fuel ih l (omega arith) e.1 (λ p. omega (arith, u p)) a.1
              (omega arith) in
          retell (ground (arith, a.0, t)) (ground (arith, a.0, t, b.returns)) (
            from_left i k l r (inserted q m l) (1 + max (height l) (height r)) e u s
              (λ p. occurs-inserted q m p l a.1) (size-inserted q m l a.1) b)

      go_right :
          o.lt_key q k ≡ false
          → Builds h
              (inserted q m (branch i k l r))
              free1
              (insert_at (suc fuel) (node_of k l r) i q h)
      unfolding insert_at inserted
      go_right t =
          let b =
            insert_below_lem fuel ih r (omega arith) e.2 (λ p. omega (arith, u p)) a.2
              (omega arith) in
          retell (ground (arith, a.0, t)) (ground (arith, a.0, t, b.returns)) (
            from_right i k l r (inserted q m r) (1 + max (height l) (height r)) e u s
              (λ p. occurs-inserted q m p r a.2) (size-inserted q m r a.2) b)

    pub insert_at_lem : (fuel : ℕ) → Correct fuel
    insert_at_lem zero i k l r f e u a s = absurd (omega arith)
    insert_at_lem (suc fuel) i k l r f e u a s = elim (Bool-cases (o.lt_key q k)) [
      | inl t ↦ go_left fuel (insert_at_lem fuel) i k l r f e u a s t
      | inr t ↦ go_right fuel (insert_at_lem fuel) i k l r f e u a s t
    ]

    -- The same from the root, with the height that is stored there as the fuel.
    pub insert_root_lem :
        (t : Shape K)
        → Represents h t
        → Unique t
        → Absent q t
        → size t + 1 < u32_size
        → Builds h (inserted q m t) free1 (insert_root (link t) q h)
    unfolding insert_root inserted
    insert_root_lem leaf e u a s = leaf_inserted
    insert_root_lem (branch i k l r) e u a s =
        retell refl (ground (arith, e.0))
          (insert_at_lem (height (branch i k l r)) i k l r (omega arith) e u a s)

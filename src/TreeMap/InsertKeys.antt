-- ===== src/TreeMap/InsertKeys.antt =====
-- An insertion into a valid tree of keys is one into their sorted list
-- (near-sdk/src/store/tree_map/mod.rs, internal_insert).
use near_runtime_rs.Base.{
  ◌+◌, ◌≡◌, ◌<◌, false, some, List, [], ◌∷◌, ◌++◌, arith, refl, ap, sym, ◌∙◌, subst, u32_size, done,
  ℕ_discrete, Bool-cases, inl, inr, length, length-append,
}
use near_runtime_rs.FreeList.Defs.{FreeListIndex, get}
use near_runtime_rs.FreeList.Invariant.{IsFreeList}
use near_runtime_rs.FreeList.Remove.{insert_lem}
use near_runtime_rs.TreeMap.Ord.{Ord}
use near_runtime_rs.TreeMap.Tree.{Nodes, Tree, of}
use near_runtime_rs.TreeMap.Shape.{Shape, leaf, branch, link, size, keys, occurs, inserted}
use near_runtime_rs.TreeMap.Balance.{insert_root, internal_insert}
use near_runtime_rs.TreeMap.Represents.{Represents, Unique, vacant-occurs}
use near_runtime_rs.TreeMap.Count.{Full, Full-count, present, present_le}
use near_runtime_rs.TreeMap.Rebalanced.{keys-balanced}
use near_runtime_rs.TreeMap.Insertion.{Absent, insert_root_lem, occurs-inserted}
use near_runtime_rs.TreeMap.SortedKeys.{
  Sorted, Sorted-halves, insert_sorted, insert_sorted_left, insert_sorted_right,
  insert_sorted-Sorted, has_key, has_key-append,
}
use near_runtime_rs.TreeMap.Avl.{Avl, inserted_levels, inserted_less, inserted_greater}

module _ {K : Type 0} ⦃o : Ord K⦄ where
  pub length-keys : (t : Shape K) → length (keys t) ≡ size t
  length-keys leaf = refl
  length-keys (branch i k l r) =
      omega (arith, length-append (keys l) (k ∷ keys r), length-keys l, length-keys r)

  pub has_key-Absent : (q : K) (t : Shape K) → has_key q (keys t) ≡ false → Absent q t
  unfolding has_key
  has_key-Absent q leaf e = tt
  has_key-Absent q (branch i k l r) e =
      let split = has_key-append q (keys l) (k ∷ keys r) in
      (
        ground (arith, e, split),
        has_key-Absent q l (ground (arith, e, split)),
        has_key-Absent q r (ground (arith, e, split)),
      )

  pub keys-inserted :
      (q : K) (m : FreeListIndex) (t : Shape K)
      → Sorted (keys t)
      → Absent q t
      → keys (inserted q m t) ≡ insert_sorted q (keys t)
  unfolding inserted insert_sorted
  keys-inserted q m leaf s a = refl
  keys-inserted q m (branch i k l r) s a =
      let h = Sorted-halves (keys l) k (keys r) s in
      elim (Bool-cases (o.lt_key q k)) [
        | inl t ↦
            ap keys (inserted_less q m i k l r a.0 t)
            ∙ keys-balanced i k (inserted q m l) r
            ∙ ap (λ xs. xs ++ (k ∷ keys r)) (keys-inserted q m l h.0 a.1)
            ∙ sym (insert_sorted_left q (keys l) k (keys r) t)
        | inr t ↦
            ap keys (inserted_greater q m i k l r a.0 t)
            ∙ keys-balanced i k l (inserted q m r)
            ∙ ap (λ xs. keys l ++ (k ∷ xs)) (keys-inserted q m r h.3 a.2)
            ∙ sym (insert_sorted_right q (keys l) k (keys r) h.1 t a.0)
      ]

  -- The nodes are those of a balanced search tree, and there are no others.
  pub record IsTree (t : Tree K) (s : Shape K) (free : List FreeListIndex) : Type 0 where
    pub root : t.root ≡ link s
    pub represents : Represents t.nodes s
    pub unique : Unique s
    pub avl : Avl s
    pub sorted : Sorted (keys s)
    pub slots : IsFreeList t.nodes free
    pub full : Full t.nodes s

  Unique-inserted :
      (q : K) (m : FreeListIndex) (t : Shape K)
      → Absent q t
      → Unique t
      → occurs m t ≡ 0
      → Unique (inserted q m t)
  Unique-inserted q m t a u z j =
      let uj = u j in
      let e = occurs-inserted q m j t a in
      elim (ℕ_discrete j m) [
        | yes p ↦ let zj : occurs j t ≡ 0 = ap (λ x. occurs x t) p ∙ z in ground (arith, p, e, zj)
        | no n ↦ ground (arith, n, e, uj)
      ]

  slot_free :
      (t : Tree K) (s : Shape K) (free : List FreeListIndex)
      → IsTree t s free
      → (free ≡ [] → length t.nodes.elements + 1 < u32_size)
      → size s + 1 < u32_size
  slot_free t s [] v room =
      let r = room refl in
      omega (
        arith,
        Full-count t.nodes s [] v.represents v.unique v.full v.slots,
        v.slots.count,
        v.slots.total,
        r,
      )
  slot_free t s (f ∷ fs) v room = omega (
    arith,
    Full-count t.nodes s (f ∷ fs) v.represents v.unique v.full v.slots,
    v.slots.count,
    v.slots.total,
    v.slots.bound,
  )

  Full-inserted :
      (q : K) (m : FreeListIndex) (s : Shape K) (h h1 : Nodes K)
      → Absent q s
      → Full h s
      → ((j : FreeListIndex) → occurs j (inserted q m s) ≡ 0 → get j h1 ≡ get j h)
      → Full h1 (inserted q m s)
  Full-inserted q m s h h1 a f frame j = elim (ℕ_discrete (occurs j (inserted q m s)) 0) [
    | yes z ↦
        let fj = f j in
        let e = occurs-inserted q m j s a in omega (arith, fj, e, ap present (frame j z))
    | no n ↦ omega (arith, n, present_le (get j h1))
  ]

  internal_insert_root :
      (q : K) (t : Tree K) {root : FreeListIndex} {nodes : Nodes K}
      → insert_root t.root q t.nodes ≡ done (root, nodes)
      → internal_insert q t ≡ done (record { root = some root; nodes = nodes })
  unfolding internal_insert
  internal_insert_root q t e = ground (arith, e)

  -- The insertion of a new key into a valid tree returns, if a slot is free or the new length fits
  -- a `u32`. The tree is valid then: balanced, and its keys are the sorted list with the new key.
  pub internal_insert_lem :
      (q : K) (t : Tree K) (s : Shape K) (free : List FreeListIndex)
      → IsTree t s free
      → has_key q (keys s) ≡ false
      → (free ≡ [] → length t.nodes.elements + 1 < u32_size)
      → (t' : Tree K) × (s' : Shape K) × (free' : List FreeListIndex) × (internal_insert q t
          ≡ done t')
        × IsTree t' s' free'
        × (keys s' ≡ insert_sorted q (keys s))
  internal_insert_lem q t s free v new room =
      let (m, h1, free1, ins, wf, i) = insert_lem (of q) t.nodes free v.slots room in
      let a = has_key-Absent q s new in
      let fits : size s + 1 < u32_size = slot_free t s free v room in
      let b = insert_root_lem q m t.nodes h1 free1 wf ins i s v.represents v.unique a fits in
      let levels = inserted_levels q m s v.avl in
      (
        record { root = some b.root; nodes = b.after },
        inserted q m s,
        free1,
        internal_insert_root q t (ap (λ r. insert_root r q t.nodes) v.root ∙ b.returns),
        record {
          root = sym b.is_root;
          represents = b.represents;
          unique =
              Unique-inserted q m s a v.unique (vacant-occurs t.nodes m s i.vacant v.represents);
          avl = levels.0;
          sorted =
              subst Sorted (sym (keys-inserted q m s v.sorted a))
                (insert_sorted-Sorted q (keys s) new v.sorted);
          slots = b.valid;
          full = Full-inserted q m s t.nodes b.after a v.full b.frame;
        },
        keys-inserted q m s v.sorted a,
      )

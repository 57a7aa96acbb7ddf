-- ===== src/TreeMap/RemoveKeys.antt =====
-- A removal from a valid tree of keys is one from their sorted list
-- (near-sdk/src/store/tree_map/mod.rs, do_remove).
use near_runtime_rs.Base.{
  ℕ, List, [], ◌+◌, ◌≡◌, ◌≢◌, ltb, true, false, if◌then◌else◌, Option, none, some, ◌∷◌, Outcome,
  done, arith, refl, sym, ap, ◌∙◌, subst, max, Bool-cases, inl, inr, ◌⊎◌, ℕ_discrete,
}
use near_runtime_rs.FreeList.Defs.{FreeListIndex, get}
use near_runtime_rs.TreeMap.Ord.{Ord}
use near_runtime_rs.TreeMap.Tree.{Node, Nodes, Tree, Panic, node, fuel_at}
use near_runtime_rs.TreeMap.Shape.{Shape, leaf, branch, height, link, keys, occurs}
use near_runtime_rs.TreeMap.Represents.{node_of, Represents, height_of-link}
use near_runtime_rs.TreeMap.Enforce.{get_balance_lem}
use near_runtime_rs.TreeMap.SortedKeys.{has_key, erase}
use near_runtime_rs.TreeMap.Count.{Full, present}
use near_runtime_rs.TreeMap.InsertKeys.{IsTree}
use near_runtime_rs.TreeMap.Lookup.{found}
use near_runtime_rs.TreeMap.Remove.{Edge, left, right, lookup_from, lookup_at, remove_node}
use near_runtime_rs.TreeMap.DoRemove.{
  is_leaf, remove_leaf, remove_by_left, remove_by_right, remove_found, remove_from, do_remove,
  root_without,
}
use near_runtime_rs.TreeMap.Place.{At, Represents-At, has_key-At}
use near_runtime_rs.TreeMap.Extreme.{has_key_root}
use near_runtime_rs.TreeMap.Taking.{Emptied, remove_node_lem}
use near_runtime_rs.TreeMap.Finding.{side, Parent, lookup_link}
use near_runtime_rs.TreeMap.RemoveLeft.{Gone, remove_by_left_lem}
use near_runtime_rs.TreeMap.RemoveRight.{remove_by_right_lem}
use near_runtime_rs.TreeMap.RemoveLeaf.{leaf_left, leaf_right}

module _ {K : Type 0} ⦃o : Ord K⦄ where
  pub erase_absent : (q : K) (xs : List K) → has_key q xs ≡ false → erase q xs ≡ xs
  unfolding erase has_key
  erase_absent q [] h = refl
  erase_absent q (x ∷ xs) h = ground (arith, h, erase_absent q xs)

  -- The same removal, told of another computation.
  Gone-of :
      {s : Shape K} {key : K} {run run' : Outcome Panic ((K × Option FreeListIndex) × Nodes K)}
      → run' ≡ run
      → Gone s key run
      → Gone s key run'
  Gone-of {s} {key} e g = subst (Gone s key) (sym e) g

  lone_run :
      (root : Option FreeListIndex) (i : FreeListIndex) (n : Node K) (h h1 : Nodes K)
      → remove_node i h ≡ done (n, h1)
      → remove_leaf root i none h ≡ done ((n.key, root_without i root), h1)
  unfolding remove_leaf
  lone_run root i n h h1 e = ground (arith, e)

  module _ (t : Tree K) (s : Shape K) (free : List FreeListIndex) (v : IsTree t s free) (key : K)
      (i : FreeListIndex) where
    lone : s ≡ branch i key leaf leaf → Gone s key (remove_leaf (link s) i none t.nodes)
    unfolding erase
    lone is =
        let e = subst (Represents t.nodes) is v.represents in
        let c = remove_node_lem t.nodes free i (node_of key leaf leaf) v.slots e.0 in
        record {
          shape = leaf;
          nodes = c.after;
          free = c.free;
          returns =
              lone_run (link s) i (node_of key leaf leaf) t.nodes c.after c.returns
              ∙ ap (λ a. done ((key, root_without i (link a)), c.after)) is
              ∙ ap (λ a. done ((key, a), c.after)) (ground arith);
          valid = record {
            root = refl;
            represents = tt;
            unique = λ j. omega arith;
            avl = tt;
            sorted = tt;
            slots = c.valid;
            full = full_after c is;
          };
          erased = sym (ap (λ a. erase key (keys a)) is ∙ ground (arith, o.eq_refl key));
        }
      where
        full_after :
            (c : Emptied t.nodes i (node_of key leaf leaf))
            → s ≡ branch i key leaf leaf
            → Full c.after leaf
        full_after c is j = elim (ℕ_discrete j i) [
          | yes p ↦ let e = ap present (ap (λ x. get x c.after) p ∙ c.gone) in omega (arith, e)
          | no n ↦
              let fj = v.full j in
              let e = ap present (c.others j n) in
              let oj = ap (occurs j) is in ground (arith, fj, e, oj, n)
        ]

    leaf_case :
        (par : Option (FreeListIndex × Node K × Edge))
        → ((par ≡ none) × (s ≡ branch i key leaf leaf)) ⊎ Parent s (branch i key leaf leaf) par
        → Gone s key (remove_leaf (link s) i par t.nodes)
    leaf_case par (inl (pe, is)) = Gone-of (ap (λ p. remove_leaf (link s) i p t.nodes) pe) (lone is)
    leaf_case par (inr d) =
        Gone-of (ap (λ p. remove_leaf (link s) i p t.nodes) d.is)
          (by_edge d.edge d.pl d.pr d.place d.below)
      where
        by_edge :
            (edge : Edge) (pl pr : Shape K)
            → At d.pk (branch d.pid d.pk pl pr) s
            → side edge pl pr ≡ branch i key leaf leaf
            → Gone s key (remove_leaf (link s) i (some (d.pid, node_of d.pk pl pr, edge)) t.nodes)
        by_edge left pl pr place below =
            subst
              (λ x.
                At d.pk (branch d.pid d.pk x pr) s
                → Gone s key
                    (remove_leaf (link s) i (some (d.pid, node_of d.pk x pr, left)) t.nodes))
              (sym below) (leaf_left t s free v i key d.pid d.pk pr) place
        by_edge right pl pr place below =
            subst
              (λ x.
                At d.pk (branch d.pid d.pk pl x) s
                → Gone s key
                    (remove_leaf (link s) i (some (d.pid, node_of d.pk pl x, right)) t.nodes))
              (sym below) (leaf_right t s free v i key d.pid d.pk pl) place

    -- Which part of the removal runs, by the children of the node.
    leaf_part :
        (par : Option (FreeListIndex × Node K × Edge))
        → (x : ℕ)
        → remove_found (link s) i (record { key = key; lft = none; rgt = none; ht = x }) par t.nodes
          ≡ remove_leaf (link s) i par t.nodes
    unfolding remove_found
    leaf_part par x = refl

    inner_part :
        (l r : Shape K) (par : Option (FreeListIndex × Node K × Edge))
        → At key (branch i key l r) s
        → is_leaf (node_of key l r) ≡ false
        → remove_found (link s) i (node_of key l r) par t.nodes ≡ (
            if ltb (height l) (height r)
            then remove_by_right (link s) i (node_of key l r) t.nodes
            else remove_by_left (link s) i (node_of key l r) t.nodes)
    unfolding remove_found
    inner_part l r par p inner =
        let e = Represents-At key t.nodes (branch i key l r) s p v.represents in
        ground
          (arith, inner, get_balance_lem t.nodes key l r (1 + max (height l) (height r)) e.1 e.2)

    inner_case :
        (l r : Shape K) (par : Option (FreeListIndex × Node K × Edge))
        → At key (branch i key l r) s
        → is_leaf (node_of key l r) ≡ false
        → (height l ≢ 0) ⊎ (height r ≢ 0)
        → Gone s key (remove_found (link s) i (node_of key l r) par t.nodes)
    inner_case l r par p inner some_child =
        Gone-of (inner_part l r par p inner) (elim (Bool-cases (ltb (height l) (height r))) [
          | inl lt ↦ rw lt (
              remove_by_right_lem t s free v i key l r p
                (λ is. let z = ap height is in ground (arith, lt, z)))
          | inr ge ↦ rw ge (
              remove_by_left_lem t s free v i key l r p
                (λ is. let z = ap height is in ground (arith, ge, z, some_child)))
        ])

    found_case :
        (l r : Shape K) (par : Option (FreeListIndex × Node K × Edge))
        → At key (branch i key l r) s
        → ((par ≡ none) × (s ≡ branch i key l r)) ⊎ Parent s (branch i key l r) par
        → Gone s key (remove_found (link s) i (node_of key l r) par t.nodes)
    found_case leaf leaf par p up = Gone-of (leaf_part par 1) (leaf_case par up)
    found_case (branch j m a b) r par p up =
        inner_case (branch j m a b) r par p refl (inl (λ z. omega (arith, z)))
    found_case leaf (branch j m a b) par p up =
        inner_case leaf (branch j m a b) par p refl (inr (λ z. omega (arith, z)))

  from_run_none :
      (root : FreeListIndex) (n : Node K) (key : K) (h : Nodes K)
      → node h root ≡ some n
      → lookup_from (fuel_at root h) root none key h ≡ done none
      → remove_from root key h ≡ done ((none, some root), h)
  unfolding remove_from lookup_at
  from_run_none root n key h e run = ground (arith, e, run)

  from_run_some :
      (root i : FreeListIndex) (n m : Node K) (par : Option (FreeListIndex × Node K × Edge))
      (key k : K) (root' : Option FreeListIndex) (h h' : Nodes K)
      → node h root ≡ some n
      → lookup_from (fuel_at root h) root none key h ≡ done (some ((i, m), par))
      → remove_found (some root) i m par h ≡ done ((k, root'), h')
      → remove_from root key h ≡ done ((some k, root'), h')
  unfolding remove_from lookup_at
  from_run_some root i n m par key k root' h h' e run gone = ground (arith, e, run, gone)

  do_remove_run :
      (key : K) (t : Tree K) (root : FreeListIndex) (k : Option K) (root' : Option FreeListIndex)
      (h' : Nodes K)
      → t.root ≡ some root
      → remove_from root key t.nodes ≡ done ((k, root'), h')
      → do_remove key t ≡ done (k, record { root = root'; nodes = h' })
  unfolding do_remove
  do_remove_run key t root k root' h' e run = ground (arith, e, run)

  -- The removal of a key from a valid tree returns the key if it was there. The tree is valid then:
  -- balanced, and its keys are the sorted list without the key.
  pub do_remove_lem :
      (key : K) (t : Tree K) (s : Shape K) (free : List FreeListIndex)
      → IsTree t s free
      → (t' : Tree K) × (s' : Shape K) × (free' : List FreeListIndex) × (do_remove key t
          ≡ done (found key (keys s), t'))
        × IsTree t' s' free'
        × (keys s' ≡ erase key (keys s))
  unfolding do_remove has_key erase
  do_remove_lem key t leaf free v = (t, leaf, free, ground (arith, v.root), v, refl)
  do_remove_lem key t (branch i k l r) free v =
      elim (lookup_link (fuel_at i t.nodes) t.nodes (branch i k l r) none key v.represents v.sorted
        (omega (arith, height_of-link t.nodes (branch i k l r) v.represents))) [
          | inl (out, run) ↦ (
            record { root = some i; nodes = t.nodes },
            branch i k l r,
            free,
            do_remove_run key t i none (some i) t.nodes v.root
                  (from_run_none i (node_of k l r) key t.nodes v.represents.0 run)
                ∙ ap (λ a. done (a, record { root = some i; nodes = t.nodes }))
                    (sym (found_no key (keys (branch i k l r)) out)),
            same_tree t (branch i k l r) free v,
            sym (erase_absent key (keys (branch i k l r)) out),
          )
          | inr w ↦
              let g = found_case t (branch i k l r) free v key w.i w.l w.r w.par w.place w.up in
              let has =
                has_key-At key key (branch w.i key w.l w.r) (branch i k l r) w.place
                  (has_key_root w.i key w.l w.r) in
              (
                record { root = link g.shape; nodes = g.nodes },
                g.shape,
                g.free,
                do_remove_run key t i (some key) (link g.shape) g.nodes v.root (
                      from_run_some i w.i (node_of k l r) (node_of key w.l w.r) w.par key key
                        (link g.shape) t.nodes g.nodes v.represents.0 w.found g.returns)
                    ∙ ap (λ a. done (a, record { root = link g.shape; nodes = g.nodes }))
                        (sym (found_yes key (keys (branch i k l r)) has)),
                g.valid,
                g.erased,
              )
        ]
    where
      found_no : (q : K) (ks : List K) → has_key q ks ≡ false → found q ks ≡ none
      found_no q ks e = ground (arith, e)

      found_yes : (q : K) (ks : List K) → has_key q ks ≡ true → found q ks ≡ some q
      found_yes q ks e = ground (arith, e)

      same_tree :
          (t : Tree K) (s : Shape K) (free : List FreeListIndex)
          → IsTree t s free
          → IsTree (record { root = link s; nodes = t.nodes }) s free
      same_tree t s free v = record {
        root = refl;
        represents = v.represents;
        unique = v.unique;
        avl = v.avl;
        sorted = v.sorted;
        slots = v.slots;
        full = v.full;
      }

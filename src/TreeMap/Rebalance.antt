-- ===== src/TreeMap/Rebalance.antt =====
-- The tree after a slot has been taken out of a subtree and the way to it has been rebuilt
-- (near-sdk/src/store/tree_map/mod.rs, do_remove).
use near_runtime_rs.Base.{
  suc, List, ◌+◌, ◌≡◌, ◌≢◌, ◌≤◌, ◌==◌, true, if◌then◌else◌, none, some, done, arith, refl, sym, ap,
  ◌∙◌, subst, inl, inr, ℕ_discrete,
}
use near_runtime_rs.FreeList.Defs.{FreeListIndex, get}
use near_runtime_rs.FreeList.Invariant.{IsFreeList}
use near_runtime_rs.TreeMap.Ord.{Ord}
use near_runtime_rs.TreeMap.Tree.{Node, Nodes, Tree, height_of, fuel_at}
use near_runtime_rs.TreeMap.Shape.{Shape, leaf, branch, height, link, occurs, size, keys}
use near_runtime_rs.TreeMap.SortedKeys.{Sorted, has_key, erase, erase-Sorted}
use near_runtime_rs.TreeMap.Avl.{Avl}
use near_runtime_rs.TreeMap.Represents.{node_of, Represents-frame, Represents, Unique}
use near_runtime_rs.TreeMap.Count.{Full, Full-count, present, present_le}
use near_runtime_rs.TreeMap.InsertKeys.{IsTree}
use near_runtime_rs.TreeMap.Remove.{check_balance, rebalance}
use near_runtime_rs.TreeMap.Rebuild.{
  rebuilt, occurs-rebuilt, keys-rebuilt, Stale, Stale-link, check_balance_lem,
}
use near_runtime_rs.TreeMap.Place.{
  At, replace, replace_here, replace_left, replace_right, occurs-replace, size-replace, occurs-At,
  Stale-replace,
}
use near_runtime_rs.TreeMap.PlaceKeys.{keys-replace, Lowered, rebuilt_levels}

module _ {K : Type 0} ⦃o : Ord K⦄ where
  pub height-replace :
      (a : K) (sub new t : Shape K)
      → At a sub t
      → height new ≤ height sub
      → height (replace a new t) ≤ height t
  height-replace a sub new leaf p s = absurd p
  height-replace a sub new (branch i k l r) (inl (eq, is)) s =
      let same = ap height is in omega (arith, ap height (replace_here a new i k l r eq), same, s)
  height-replace a sub new (branch i k l r) (inr (inl (eq, lt, p))) s =
      omega (arith, ap height (replace_left a new i k l r eq lt), height-replace a sub new l p s)
  height-replace a sub new (branch i k l r) (inr (inr (eq, lt, p))) s =
      omega (arith, ap height (replace_right a new i k l r eq lt), height-replace a sub new r p s)

  -- What the nodes `h'` are, after the slot `m` with the key `key` has gone from the subtree at `a`:
  -- up to heights on the way to the key `q` they stand for the subtree `new`.
  pub record Taken (h h' : Nodes K) (s : Shape K) (a q key : K) (m : FreeListIndex)
      (sub new : Shape K) : Type 0 where
    pub place : At a sub s
    pub stale : Stale q h' new
    pub linked : link new ≡ link sub
    pub pivot : has_key q (keys sub) ≡ true
    pub has : has_key key (keys sub) ≡ true
    pub erased : keys new ≡ erase key (keys sub)
    pub slots : (j : FreeListIndex) → occurs j new + (if j == m then 1 else 0) ≡ occurs j sub
    pub fewer : size new + 1 ≡ size sub
    pub outside : (j : FreeListIndex) → occurs j sub ≡ 0 → get j h' ≡ get j h
    pub lowered : Lowered sub (rebuilt q new)
    pub not_higher : height new ≤ height sub
    pub fuel : height new ≤ suc (height_of (link new) h')

  kept_height :
      (i : FreeListIndex) (h h' : Nodes K) (n : Node K)
      → get i h ≡ some n
      → get i h' ≡ get i h
      → height_of (some i) h' ≡ n.ht
  unfolding height_of
  kept_height i h h' n e same = let found = same ∙ e in ground (arith, found)

  enough :
      (h h' : Nodes K) (s : Shape K) (a q key : K) (m : FreeListIndex) (sub new : Shape K)
      → Represents h s
      → Unique s
      → (c : Taken h h' s a q key m sub new)
      → height (replace a new s) ≤ suc (height_of (link s) h')
  enough h h' leaf a q key m sub new e u c = absurd c.place
  enough h h' (branch i k l r) a q key m sub new e u c = elim c.place [
    | inl (eq, is) ↦
        let root = ap (λ y. height_of y h') (c.linked ∙ sym (ap link is)) in
        omega (arith, ap height (replace_here a new i k l r eq), c.fuel, root)
    | inr (inl (eq, lt, p)) ↦
        let ui = u i in
        let kept =
          kept_height i h h' (node_of k l r) e.0
            (c.outside i (ground (arith, ui, occurs-At a sub l i p))) in
        omega (arith, height-replace a sub new (branch i k l r) c.place c.not_higher, kept)
    | inr (inr (eq, lt, p)) ↦
        let ui = u i in
        let kept =
          kept_height i h h' (node_of k l r) e.0
            (c.outside i (ground (arith, ui, occurs-At a sub r i p))) in
        omega (arith, height-replace a sub new (branch i k l r) c.place c.not_higher, kept)
  ]

  pub record Rebalanced (s : Shape K) (q key : K) (m : FreeListIndex) (h' : Nodes K)
      (free' : List FreeListIndex) : Type 0 where
    pub shape : Shape K
    pub after : Nodes K
    pub returns : rebalance (link s) q h' ≡ done (link shape, after)
    pub represents : Represents after shape
    pub frame : (j : FreeListIndex) → occurs j shape ≡ 0 → get j after ≡ get j h'
    pub valid : IsFreeList after free'
    pub avl : Avl shape
    pub erased : keys shape ≡ erase key (keys s)
    pub slots : (j : FreeListIndex) → occurs j shape + (if j == m then 1 else 0) ≡ occurs j s

  rebalance_run :
      (i root : FreeListIndex) (q : K) (h after : Nodes K)
      → check_balance (fuel_at i h) i q h ≡ done (root, after)
      → rebalance (some i) q h ≡ done (some root, after)
  unfolding rebalance
  rebalance_run i root q h after run = ground (arith, run)

  rebalance-link :
      (s : Shape K) (c : FreeListIndex) (root : FreeListIndex) (shape : Shape K) (q : K)
      (h after : Nodes K)
      → link s ≡ some c
      → link shape ≡ some root
      → check_balance (fuel_at c h) c q h ≡ done (root, after)
      → rebalance (link s) q h ≡ done (link shape, after)
  rebalance-link s c root shape q h after e f run =
      ap (λ y. rebalance y q h) e
      ∙ rebalance_run c root q h after run
      ∙ ap (λ y. done (y, after)) (sym f)

  pub rebalance_lem :
      (t : Tree K) (s : Shape K) (free : List FreeListIndex) (h' : Nodes K)
      (free' : List FreeListIndex) (a q key : K) (m : FreeListIndex) (sub new : Shape K)
      → IsTree t s free
      → IsFreeList h' free'
      → Taken t.nodes h' s a q key m sub new
      → Rebalanced s q key m h' free'
  rebalance_lem t s free h' free' a q key m sub new v wf c =
      let count = Full-count t.nodes s free v.represents v.unique v.full v.slots in
      let whole =
        Stale-replace a q t.nodes h' sub new s c.place v.represents v.unique v.sorted c.pivot
          c.linked c.stale (λ j ne out. c.outside j out) in
      let (i, li) = Stale-link q h' (replace a new s) whole.0 in
      let occ : (j : FreeListIndex)
          → occurs j (replace a new s) + (if j == m then 1 else 0) ≡ occurs j s =
        λ j. let cj = c.slots j in omega (arith, cj, occurs-replace a sub new s j c.place) in
      let b =
        check_balance_lem q h' free' wf (fuel_at i h') (replace a new s) i li
          (let f = enough t.nodes h' s a q key m sub new v.represents v.unique c in
            let root = ap (λ y. height_of y h') (sym whole.1 ∙ li) in omega (arith, f, root))
          whole.0 (λ j. let oj = occ j in let uj = v.unique j in omega (arith, oj, uj))
          (omega (
            arith,
            size-replace a sub new s c.place,
            c.fewer,
            count,
            v.slots.count,
            v.slots.total,
            v.slots.bound,
          )) in
      let low = rebuilt_levels a q sub new s c.place v.sorted v.avl c.pivot c.lowered in
      record {
        shape = rebuilt q (replace a new s);
        after = b.after;
        returns =
            rebalance-link s i b.root (rebuilt q (replace a new s)) q h' b.after (sym whole.1 ∙ li)
              b.is_root b.returns;
        represents = b.represents;
        frame = b.frame;
        valid = b.valid;
        avl = low.avl;
        erased =
            keys-rebuilt q (replace a new s)
            ∙ keys-replace a key sub new s c.place v.sorted c.has c.erased;
        slots = λ j. let oj = occ j in omega (arith, oj, occurs-rebuilt q (replace a new s) j);
      }

  -- The nodes of the rebalanced tree, without the slot, are a valid tree.
  pub Rebalanced-IsTree :
      (t : Tree K) (s : Shape K) (free : List FreeListIndex) (h' : Nodes K)
      (free' : List FreeListIndex) (q key : K) (m : FreeListIndex) (hf : Nodes K)
      (ff : List FreeListIndex)
      → IsTree t s free
      → (b : Rebalanced s q key m h' free')
      → ((j : FreeListIndex) → occurs j s ≡ 0 → get j h' ≡ get j t.nodes)
      → IsFreeList hf ff
      → get m hf ≡ none
      → ((j : FreeListIndex) → j ≢ m → get j hf ≡ get j b.after)
      → IsTree (record { root = link b.shape; nodes = hf }) b.shape ff
  Rebalanced-IsTree t s free h' free' q key m hf ff v b outside wf gone others = record {
    root = refl;
    represents = Represents-frame b.after hf b.shape (λ j ne. others j (stays j ne)) b.represents;
    unique = λ j. let bj = b.slots j in let uj = v.unique j in omega (arith, bj, uj);
    avl = b.avl;
    sorted = subst Sorted (sym b.erased) (erase-Sorted key (keys s) v.sorted);
    slots = wf;
    full = full;
  }
    where
      out : (j : FreeListIndex) → j ≡ m → occurs j b.shape ≡ 0
      out j p = let bj = b.slots j in let uj = v.unique j in ground (arith, p, bj, uj)

      stays : (j : FreeListIndex) → occurs j b.shape ≢ 0 → j ≢ m
      stays j ne p = ne (out j p)

      full : Full hf b.shape
      full j = elim (ℕ_discrete (occurs j b.shape) 0) [
        | no n ↦ omega (arith, n, present_le (get j hf))
        | yes z ↦ elim (ℕ_discrete j m) [
          | yes p ↦
              let e = ap (λ x. get x hf) p ∙ gone in let pe = ap present e in omega (arith, pe)
          | no n ↦
              let bj = b.slots j in
              let zero_in : occurs j s ≡ 0 = ground (arith, bj, z, n) in
              let fj = v.full j in
              let e = ap present (others j n ∙ b.frame j z ∙ outside j zero_in) in
              omega (arith, fj, e, zero_in)
        ]
      ]

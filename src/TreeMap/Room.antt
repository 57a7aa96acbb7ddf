-- ===== src/TreeMap/Room.antt =====
-- An insertion of a new key that returns had a slot for it (near-sdk/src/store/tree_map/mod.rs,
-- internal_insert and insert_at).
use near_runtime_rs.Base.{
  ℕ, zero, suc, ◌+◌, ◌≤◌, ◌<◌, ◌≡◌, none, some, List, [], panic, done, arith, u32_size, length,
  Bool-cases, inl, inr, dec_lt, subst, ap, ◌∙◌, refl, false, Option,
}
use near_runtime_rs.FreeList.Defs.{FreeList, FreeListIndex, get, push_new}
use near_runtime_rs.FreeList.Defs as FreeList
use near_runtime_rs.FreeList.Invariant.{Chain}
use near_runtime_rs.Store.IndexMap.{index_out_of_bounds}
use near_runtime_rs.TreeMap.Ord.{Ord}
use near_runtime_rs.TreeMap.Tree.{Nodes, Tree, Panic, of, on_list}
use near_runtime_rs.TreeMap.Shape.{Shape, leaf, branch, link, keys}
use near_runtime_rs.TreeMap.Balance.{insert_below, insert_at, insert_root, internal_insert}
use near_runtime_rs.TreeMap.Represents.{node_of, Represents}
use near_runtime_rs.TreeMap.Insertion.{Absent}
use near_runtime_rs.TreeMap.SortedKeys.{has_key}
use near_runtime_rs.TreeMap.InsertKeys.{IsTree, has_key-Absent}

abbrev full_panic : Panic
full_panic = Panic.list_panic index_out_of_bounds

Chain-end :
    {T : Type 0} (es : List (FreeList.Slot T)) (o : Option FreeListIndex) → Chain es o [] → o ≡ none
Chain-end es none c = refl
Chain-end es (some i) c = absurd c

list_full :
    {T : Type 0} (x : T) (l : FreeList T)
    → l.first_free ≡ none
    → u32_size ≤ length l.elements + 1
    → FreeList.insert x l ≡ panic index_out_of_bounds
unfolding FreeList.insert push_new
list_full x l e h = ground (arith, e, h)

module _ {K : Type 0} ⦃o : Ord K⦄ (q : K) (h : Nodes K)
    (full : on_list (FreeList.insert (of q)) h ≡ panic full_panic) where
  below_full :
      (fuel : ℕ) (t : Shape K)
      → Represents h t
      → Absent q t
      → ((i : FreeListIndex) (k : K) (l r : Shape K)
          → Represents h (branch i k l r)
          → Absent q (branch i k l r)
          → (x : Panic) × (insert_at fuel (node_of k l r) i q h ≡ panic x))
      → (x : Panic) × (insert_below (λ m c. insert_at fuel m c q) (link t) q h ≡ panic x)
  below_full fuel leaf r a below = (full_panic, full)
  below_full fuel (branch i k l r) e a below =
      let (x, p) = below i k l r e a in (x, ground (arith, e.0, p))

  insert_at_full :
      (fuel : ℕ) (i : FreeListIndex) (k : K) (l r : Shape K)
      → Represents h (branch i k l r)
      → Absent q (branch i k l r)
      → (x : Panic) × (insert_at fuel (node_of k l r) i q h ≡ panic x)
  unfolding insert_at
  insert_at_full zero i k l r e a = (Panic.out_of_fuel, ground arith)
  insert_at_full (suc fuel) i k l r e a = elim (Bool-cases (o.lt_key q k)) [
    | inl less ↦
        let (x, p) = below_full fuel l e.1 a.1 (insert_at_full fuel) in
        (x, ground (arith, less, a.0, p))
    | inr more ↦
        let (x, p) = below_full fuel r e.2 a.2 (insert_at_full fuel) in
        (x, ground (arith, more, a.0, p))
  ]

  insert_root_full :
      (t : Shape K)
      → Represents h t
      → Absent q t
      → (x : Panic) × (insert_root (link t) q h ≡ panic x)
  unfolding insert_root
  insert_root_full leaf r a = (full_panic, full)
  insert_root_full (branch i k l r) e a =
      let n = node_of k l r in
      let (x, p) = insert_at_full (n.ht) i k l r e a in (x, ground (arith, e.0, p))

-- If no slot was free, the new length fits a `u32`.
pub insert-room :
    {K : Type 0} ⦃o : Ord K⦄ (q : K) (t t' : Tree K) (s : Shape K) (free : List FreeListIndex)
    → IsTree t s free
    → has_key q (keys s) ≡ false
    → internal_insert q t ≡ done t'
    → free ≡ []
    → length t.nodes.elements + 1 < u32_size
unfolding internal_insert on_list
insert-room q t t' s free v new run none_free =
    elim (dec_lt (length t.nodes.elements + 1) u32_size) [
      | yes p ↦ p
      | no p ↦
          let first =
            Chain-end t.nodes.elements t.nodes.first_free
              (subst (Chain t.nodes.elements t.nodes.first_free) none_free v.slots.chain) in
          let l = list_full (of q) t.nodes first (omega arith) in
          let (x, e) =
            insert_root_full q t.nodes (ground (arith, l)) s v.represents
              (has_key-Absent q s new) in
          let e' : insert_root t.root q t.nodes ≡ panic x =
            ap (λ r. insert_root r q t.nodes) v.root ∙ e in
          absurd (ground (arith, e', run))
    ]

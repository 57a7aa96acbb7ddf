-- ===== src/TreeMap/Reachable.antt =====
-- The tree maps that a contract can come to by insertions and removals, and how deep their trees
-- are (near-sdk/src/store/tree_map/mod.rs).
use near_runtime_rs.Base.{
  ◌+◌, ◌*◌, ◌^◌, ◌≡◌, ◌≤◌, ◌<◌, Option, none, List, [], ◌∷◌, ◌++◌, done, arith, refl, sym, ap, ◌∙◌,
  subst, u32_size, length, Outcome-cases, inl, inr, false,
}
use near_runtime_rs.Base.Dict.{Key, is_some}
use near_runtime_rs.FreeList.Defs.{FreeListIndex}
use near_runtime_rs.FreeList.Defs as FreeList
use near_runtime_rs.FreeList.Invariant.{count_occupied}
use near_runtime_rs.Store.Trie.{Bytes, Trie, Borsh}
use near_runtime_rs.Store.LookupMap.{ToKey}
use near_runtime_rs.Store.LookupView.{view, get_mut_inner_lem}
use near_runtime_rs.TreeMap.Ord.{Ord}
use near_runtime_rs.TreeMap.Tree.{height_of}
use near_runtime_rs.TreeMap.Tree
use near_runtime_rs.TreeMap.Shape.{Shape, leaf, keys}
use near_runtime_rs.TreeMap.SortedKeys.{has_key}
use near_runtime_rs.TreeMap.InsertKeys.{IsTree}
use near_runtime_rs.TreeMap.Depth.{stored_depth_bound}
use near_runtime_rs.TreeMap.Room.{insert-room}
use near_runtime_rs.TreeMap.Balance.{internal_insert}
use near_runtime_rs.TreeMap.Map.{TreeMap, with_hasher, len, insert, insert_at_entry, remove_entry}
use near_runtime_rs.TreeMap.MapInsert.{IsMap, map_insert_lem}
use near_runtime_rs.TreeMap.MapRemove.{map_remove_lem}

module _ {K V : Type 0} ⦃key : Key K⦄ ⦃o : Ord K⦄ (borsh : Borsh V) (to_key : ToKey K) where
  -- What insertions and removals make of a new map under whose keys storage has nothing.
  pub data Reachable : TreeMap K V → Type 0 where
    start :
        (prefix : Bytes) (trie : Trie)
        → ((k : K) → trie (to_key (prefix ++ (118 ∷ [])) k) ≡ none)
        → Reachable (with_hasher prefix trie)
    inserted :
        (k : K) (x : V) (old : Option V) (m m' : TreeMap K V)
        → Reachable m
        → insert borsh to_key k x m ≡ done (old, m')
        → Reachable m'
    removed :
        (k : K) (taken : Option (K × V)) (m m' : TreeMap K V)
        → Reachable m
        → remove_entry borsh to_key k m ≡ done (taken, m')
        → Reachable m'

  new-IsTree : IsTree {K = K} Tree.new leaf []
  unfolding Tree.new FreeList.new FreeList.get count_occupied
  new-IsTree = record {
    root = refl;
    represents = tt;
    unique = λ j. omega arith;
    avl = tt;
    sorted = tt;
    slots = record { chain = tt; nodup = tt; count = refl; total = refl; bound = omega arith };
    full = λ j. ground arith;
  }

  with_hasher-IsMap :
      (prefix : Bytes) (trie : Trie)
      → ((k : K) → trie (to_key (prefix ++ (118 ∷ [])) k) ≡ none)
      → IsMap borsh to_key (with_hasher prefix trie) leaf []
  unfolding with_hasher has_key
  with_hasher-IsMap prefix trie blank = record {
    cache = record {
      readable = λ k b h. absurd (let bk = blank k in ground (arith, bk, h));
      clean = λ k e h st. absurd (ground (arith, h));
      distinct = tt;
    };
    tree = new-IsTree;
    same = λ k. let bk = blank k in ground (arith, bk);
  }

  -- A new key has gone into the tree before the insertion returned.
  inserted_tree :
      (k : K) (x : V) (old : Option V) (m m' : TreeMap K V) (s : Shape K)
      (free : List FreeListIndex)
      → IsMap borsh to_key m s free
      → insert borsh to_key k x m ≡ done (old, m')
      → view borsh to_key m.values k ≡ none
      → free ≡ []
      → length m.tree.nodes.elements + 1 < u32_size
  unfolding insert insert_at_entry
  inserted_tree k x old m m' s free v run absent none_free =
      let (e, s1, c) = get_mut_inner_lem borsh to_key k m.values v.cache in
      let has : has_key k (keys s) ≡ false = sym (v.same k) ∙ ap is_some absent in
      elim (Outcome-cases (internal_insert k m.tree)) [
        | inr (p, stuck) ↦ absurd (ground (arith, c.found, c.value, absent, stuck, run))
        | inl (t', grown) ↦ insert-room k m.tree t' s free v.tree has grown none_free
      ]

  -- After any insertions and removals that return, from a new map, the nodes are those of a balanced
  -- search tree, in slots that are a well-formed free list, and its keys are those with a value.
  pub Reachable-IsMap :
      (m : TreeMap K V)
      → Reachable m
      → (s : Shape K) × (free : List FreeListIndex) × IsMap borsh to_key m s free
  Reachable-IsMap m (start prefix trie blank) = (leaf, [], with_hasher-IsMap prefix trie blank)
  Reachable-IsMap m (inserted k x old before after r run) =
      let (s, free, v) = Reachable-IsMap before r in
      let a =
        map_insert_lem borsh to_key k x before s free v
          (inserted_tree k x old before after s free v run) in
      let same : a.after ≡ after = ground (arith, a.returns, run) in
      (a.shape, a.free, subst (λ u. IsMap borsh to_key u a.shape a.free) same a.valid)
  Reachable-IsMap m (removed k taken before after r run) =
      let (s, free, v) = Reachable-IsMap before r in
      let a = map_remove_lem borsh to_key k before s free v in
      let same : a.after ≡ after = ground (arith, a.returns, run) in
      (a.shape, a.free, subst (λ u. IsMap borsh to_key u a.shape a.free) same a.valid)

  -- After any insertions and removals that return, from a new map, two to the height that the root stores is at
  -- most the square of one more than the number of keys, and that height is at most 64.
  pub depth_bound :
      (m : TreeMap K V)
      → Reachable m
      → (2 ^ height_of m.tree.root m.tree.nodes ≤ (len m + 1) * (len m + 1))
        × (height_of m.tree.root m.tree.nodes ≤ 64)
  unfolding len
  depth_bound m r =
      let (s, free, v) = Reachable-IsMap m r in stored_depth_bound m.tree s free v.tree

-- ===== src/TreeMap/Map.antt =====
-- The map: a tree of keys beside a cached map of values (near-sdk/src/store/tree_map/mod.rs).
use near_runtime_rs.Base.{
  ℕ, ◌++◌, Bool, Option, none, some, [], ◌∷◌, Outcome, done, panic, Action, pure, or_panic, modify,
  ◌>>=◌, ◌>>◌,
}
use near_runtime_rs.Base.Dict.{Key}
use near_runtime_rs.FreeList.Defs.{Slot, occupied, empty, FreeList, list_len}
use near_runtime_rs.FreeList.Defs as FreeList
use near_runtime_rs.Store.Trie.{Bytes, Trie, Borsh}
use near_runtime_rs.Store.CacheEntry.{CacheEntry, set_value, replace}
use near_runtime_rs.Store.IndexMap as IndexMap
use near_runtime_rs.Store.LookupMap.{ToKey, LookupMap, Stored, put_entry, get_mut_inner}
use near_runtime_rs.Store.LookupMap as LookupMap
use near_runtime_rs.TreeMap.Ord.{Ord}
use near_runtime_rs.TreeMap.Tree.{Node, Nodes, Tree, equal_key}
use near_runtime_rs.TreeMap.Tree as Tree
use near_runtime_rs.TreeMap.Balance.{internal_insert}
use near_runtime_rs.TreeMap.DoRemove.{do_remove}

-- The panics of the map of values and those of the tree; `aborted` is the map's own `expect`.
pub data Panic : Type 0 where
  aborted : Panic
  values_panic : IndexMap.Panic → Panic
  tree_panic : Tree.Panic → Panic

-- `TreeMap`, with the host's storage beside the values.
pub record TreeMap (K V : Type 0) : Type 0 where
  pub values : Stored K V
  pub tree : Tree K

abbrev pub Op : Type 0 → Type 0 → Type 0 → Type 0
Op K V A = Action Panic (TreeMap K V) A

module _ {K V : Type 0} where
  abbrev pub on_values : {A : Type 0} → LookupMap.Op K V A → Op K V A
  on_values op m = elim (op m.values) [
    | done (a, s) ↦ done (a, record m { values = s })
    | panic p ↦ panic (values_panic p)
  ]

  abbrev pub on_tree : {A : Type 0} → (Tree K → Outcome Tree.Panic (A × Tree K)) → Op K V A
  on_tree op m = elim (op m.tree) [
    | done (a, t) ↦ done (a, record m { tree = t })
    | panic p ↦ panic (tree_panic p)
  ]

  abbrev pub ask_tree : {A : Type 0} → (Tree K → Outcome Tree.Panic A) → Op K V A
  ask_tree f m = elim (f m.tree) [ done a ↦ done (a, m) | panic p ↦ panic (tree_panic p) ]

  abbrev pub grow_tree : (Tree K → Outcome Tree.Panic (Tree K)) → Op K V (Unit {0})
  grow_tree f m = elim (f m.tree) [
    | done t ↦ done (tt, record m { tree = t })
    | panic p ↦ panic (tree_panic p)
  ]

  unfoldable pub with_hasher : Bytes → Trie → TreeMap K V
  with_hasher prefix trie = record {
    values = record { map = LookupMap.with_hasher (prefix ++ (118 ∷ [])); trie = trie };
    tree = Tree.new;
  }

  unfoldable pub len : TreeMap K V → ℕ
  unfolding list_len
  len m = list_len m.tree.nodes

  unfoldable pub is_empty : TreeMap K V → Bool
  is_empty m = FreeList.is_empty m.tree.nodes

  module _ ⦃key : Key K⦄ ⦃o : Ord K⦄ (borsh : Borsh V) (to_key : ToKey K) where
    unfoldable pub contains_key : K → Op K V Bool
    contains_key k = on_values (LookupMap.contains_key borsh to_key k)

    unfoldable pub get : K → Op K V (Option V)
    get k = on_values (LookupMap.get borsh to_key k)

    unfoldable pub get_key_value : K → Op K V (Option (K × V))
    get_key_value k = do
      value ← on_values (LookupMap.get borsh to_key k)
      elim value [
        | none ↦ pure none
        | some v ↦ do
          found ← ask_tree (λ t. equal_key t k)
          stored ← or_panic found aborted
          pure (some (stored, v))
      ]

    -- `get_mut` followed by the write of `f` through the reference.
    unfoldable pub get_mut : (V → V) → K → Op K V (Option V)
    get_mut f k = on_values (LookupMap.get_mut borsh to_key f k)

    -- What is done at the entry of the key: an occupied one has its value replaced, and a vacant
    -- one is filled after the key has gone into the tree.
    unfoldable pub insert_at_entry : K → V → CacheEntry V → Op K V (Option V)
    insert_at_entry k value e = elim e.value [
      | some old ↦ on_values (modify (put_entry k (set_value (some value) e))) >> pure (some old)
      | none ↦ do
        grow_tree (internal_insert k)
        on_values (modify (put_entry k (replace (some value) e).0))
        pure none
    ]

    unfoldable pub insert : K → V → Op K V (Option V)
    unfolding insert_at_entry
    insert k value = do e ← on_values (get_mut_inner borsh to_key k); insert_at_entry k value e

    unfoldable pub remove_entry : K → Op K V (Option (K × V))
    remove_entry k = do
      value ← on_values (LookupMap.remove borsh to_key k)
      elim value [
        | none ↦ pure none
        | some v ↦ do
          found ← on_tree (do_remove k)
          removed ← or_panic found aborted
          pure (some (removed, v))
      ]

    unfoldable pub remove : K → Op K V (Option V)
    unfolding remove_entry
    remove k = do
      entry ← remove_entry k
      elim entry [ none ↦ pure none | some (_, v) ↦ pure (some v) ]

-- ===== src/TreeMap/DoRemove.antt =====
-- The removal of a key, by the place of its node (near-sdk/src/store/tree_map/mod.rs, do_remove).
-- Each part returns the key that was removed and the root after the rebalancing.
use near_runtime_rs.Base.{
  ◌==◌, ltb, if◌then◌else◌, Bool, true, false, Option, none, some, Outcome, done, panic, pure,
  ◌>>=◌, ◌>>◌,
}
use near_runtime_rs.FreeList.Defs.{FreeListIndex}
use near_runtime_rs.TreeMap.Ord.{Ord}
use near_runtime_rs.TreeMap.Tree.{Node, Tree, Op, Panic, expect}
use near_runtime_rs.TreeMap.Balance.{write_node, update_height, get_balance}
use near_runtime_rs.TreeMap.Remove.{
  Edge, left, right, max_at, min_at, search, lookup_at, rebalance, remove_node,
}

abbrev pub root_without : FreeListIndex → Option FreeListIndex → Option FreeListIndex
root_without id none = none
root_without id (some root) = if id == root then none else some root

module _ {K : Type 0} where
  abbrev pub unlink : Edge → Node K → Node K
  unlink right n = record n { rgt = none }
  unlink left n = record n { lft = none }

module _ {K : Type 0} ⦃o : Ord K⦄ where
  unfoldable pub remove_leaf :
      Option FreeListIndex
      → FreeListIndex
      → Option (FreeListIndex × Node K × Edge)
      → Op K (K × Option FreeListIndex)
  remove_leaf root r_id none = do
    removed ← remove_node r_id
    pure (removed.key, root_without r_id root)
  remove_leaf root r_id (some (p_id, p_node, edge)) = do
    parent ← update_height (unlink edge p_node) p_id
    root' ← rebalance root parent.key
    removed ← remove_node r_id
    pure (removed.key, root_without r_id root')

  -- The greatest node of the left subtree takes the place.
  unfoldable pub remove_by_left :
      Option FreeListIndex → FreeListIndex → Node K → Op K (K × Option FreeListIndex)
  remove_by_left root r_id r_node = do
    start ← expect r_node.lft
    found ← search (max_at start)
    ((max_id, _), parent) ← expect found
    moved ← remove_node max_id
    elim parent [
      | some (p_id, p_node) ↦ do
        parent' ← update_height (record p_node { rgt = moved.lft }) p_id
        write_node r_id (record r_node { key = moved.key })
        root' ← rebalance root parent'.key
        pure (r_node.key, root')
      | none ↦ do
        n ← update_height (record r_node { key = moved.key; lft = moved.lft }) r_id
        root' ← rebalance root n.key
        pure (r_node.key, root')
    ]

  -- The least node of the right subtree takes the place.
  unfoldable pub remove_by_right :
      Option FreeListIndex → FreeListIndex → Node K → Op K (K × Option FreeListIndex)
  remove_by_right root r_id r_node = do
    start ← expect r_node.rgt
    found ← search (min_at start)
    ((min_id, _), parent) ← expect found
    moved ← remove_node min_id
    elim parent [
      | some (p_id, p_node) ↦ do
        parent' ← update_height (record p_node { lft = moved.rgt }) p_id
        write_node r_id (record r_node { key = moved.key })
        root' ← rebalance root parent'.key
        pure (r_node.key, root')
      | none ↦ do
        n ← update_height (record r_node { key = moved.key; rgt = moved.rgt }) r_id
        root' ← rebalance root n.key
        pure (r_node.key, root')
    ]

  abbrev pub is_leaf : Node K → Bool
  is_leaf n = elim n.lft [ some _ ↦ false | none ↦ elim n.rgt [ some _ ↦ false | none ↦ true ] ]

  unfoldable pub remove_found :
      Option FreeListIndex
      → FreeListIndex
      → Node K
      → Option (FreeListIndex × Node K × Edge)
      → Op K (K × Option FreeListIndex)
  remove_found root r_id r_node remove_parent =
      if is_leaf r_node then remove_leaf root r_id remove_parent else (do
        (lht, rht) ← get_balance r_node
        (if ltb lht rht then remove_by_right root r_id r_node else remove_by_left root r_id r_node))

  -- The search for the key, and the removal if there is such a node.
  unfoldable pub remove_from : FreeListIndex → K → Op K (Option K × Option FreeListIndex)
  remove_from root key = do
    found ← lookup_at root key
    elim found [
      | none ↦ pure (none, some root)
      | some ((r_id, r_node), remove_parent) ↦ do
        (k, root') ← remove_found (some root) r_id r_node remove_parent
        pure (some k, root')
    ]

  unfoldable pub do_remove : K → Tree K → Outcome Panic (Option K × Tree K)
  do_remove key t = elim t.root [
    | none ↦ done (none, t)
    | some root ↦ elim (remove_from root key t.nodes) [
      | done ((k, root'), nodes) ↦ done (k, record { root = root'; nodes = nodes })
      | panic e ↦ panic e
    ]
  ]

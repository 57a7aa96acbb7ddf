-- ===== src/TreeMap/Balance.antt =====
-- Heights, rotations and insertion (near-sdk/src/store/tree_map/mod.rs). A rotation is named after
-- the child that it lifts, as in the source.
use near_runtime_rs.Base.{
  ℕ, zero, suc, ◌+◌, ltb, if◌then◌else◌, u32_size, true, false, Option, none, some, Outcome, done,
  panic, pure, fail, gets, modify, require, ◌>>=◌, ◌>>◌, max,
}
use near_runtime_rs.FreeList.Defs.{FreeListIndex}
use near_runtime_rs.FreeList.Defs as FreeList
use near_runtime_rs.TreeMap.Ord.{Ord}
use near_runtime_rs.TreeMap.Tree.{
  Node, Tree, Op, Panic, expect, on_list, of, node, height_of, child,
}

module _ {K : Type 0} where
  -- `*expect(self.nodes.get_mut(id)) = node.clone()`
  unfoldable pub write_node : FreeListIndex → Node K → Op K (Unit {0})
  write_node id n = do
    old ← gets (λ s. node s id)
    expect old
    modify (FreeList.get_mut (λ _. n) id)

  unfoldable pub update_height : Node K → FreeListIndex → Op K (Node K)
  update_height n id = do
    lft ← gets (height_of n.lft)
    rgt ← gets (height_of n.rgt)
    require (ltb (1 + max lft rgt) u32_size) Panic.height_overflow
    let n' : Node K = record n { ht = 1 + max lft rgt }
    write_node id n'
    pure n'

  -- The two heights whose difference is the balance.
  unfoldable pub get_balance : Node K → Op K (ℕ × ℕ)
  get_balance n = do lht ← gets (height_of n.lft); rht ← gets (height_of n.rgt); pure (lht, rht)

  unfoldable pub rotate_left : Node K → FreeListIndex → Op K FreeListIndex
  rotate_left n id = do
    found ← gets (child n.lft)
    (left_id, left) ← expect found
    update_height (record n { lft = left.rgt }) id
    update_height (record left { rgt = some id }) left_id
    pure left_id

  unfoldable pub rotate_right : Node K → FreeListIndex → Op K FreeListIndex
  rotate_right n id = do
    found ← gets (child n.rgt)
    (rgt_id, rgt) ← expect found
    update_height (record n { rgt = rgt.lft }) id
    update_height (record rgt { lft = some id }) rgt_id
    pure rgt_id

  -- The left child is higher by two; first its own right child may have to be lifted.
  unfoldable pub lift_left : Node K → FreeListIndex → Op K FreeListIndex
  lift_left n id = do
    found ← gets (child n.lft)
    (left_id, left) ← expect found
    (lht, rht) ← get_balance left
    (if ltb lht rht
        then (do
          rotated ← rotate_right left left_id
          rotate_left (record n { lft = some rotated }) id)
        else rotate_left n id)

  unfoldable pub lift_right : Node K → FreeListIndex → Op K FreeListIndex
  lift_right n id = do
    found ← gets (child n.rgt)
    (right_id, right) ← expect found
    (lht, rht) ← get_balance right
    (if ltb rht lht
        then (do
          rotated ← rotate_left right right_id
          rotate_right (record n { rgt = some rotated }) id)
        else rotate_right n id)

  unfoldable pub enforce_balance : Node K → FreeListIndex → Op K FreeListIndex
  enforce_balance n id = do
    (lht, rht) ← get_balance n
    (if ltb (rht + 1) lht
        then lift_left n id
        else (if ltb (lht + 1) rht then lift_right n id else pure id))

  -- The way back up from a child.
  unfoldable pub settle : Node K → FreeListIndex → Op K FreeListIndex
  settle n id = do n' ← update_height n id; enforce_balance n' id

module _ {K : Type 0} ⦃o : Ord K⦄ where
  -- An insertion below a node: into the subtree of the link, or as a new node where there is none.
  abbrev pub insert_below :
      (Node K → FreeListIndex → Op K FreeListIndex) → Option FreeListIndex → K → Op K FreeListIndex
  insert_below rec (some id) key = do found ← gets (λ s. node s id); n ← expect found; rec n id
  insert_below rec none key = on_list (FreeList.insert (of key))

  unfoldable pub insert_at : ℕ → Node K → FreeListIndex → K → Op K FreeListIndex
  insert_at zero n id key = fail Panic.out_of_fuel
  insert_at (suc fuel) n id key = elim (o.eq_key key n.key) [
    | true ↦ pure id
    | false ↦ elim (o.lt_key key n.key) [
      | true ↦ do
        idx ← insert_below (λ m c. insert_at fuel m c key) n.lft key
        settle (record n { lft = some idx }) id
      | false ↦ do
        idx ← insert_below (λ m c. insert_at fuel m c key) n.rgt key
        settle (record n { rgt = some idx }) id
    ]
  ]

  -- The new root.
  unfoldable pub insert_root : Option FreeListIndex → K → Op K FreeListIndex
  unfolding insert_at
  insert_root none key = on_list (FreeList.insert (of key))
  insert_root (some root) key = do
    found ← gets (λ s. node s root)
    n ← expect found
    insert_at n.ht n root key

  unfoldable pub internal_insert : K → Tree K → Outcome Panic (Tree K)
  internal_insert key t = elim (insert_root t.root key t.nodes) [
    | done (root, nodes) ↦ done (record { root = some root; nodes = nodes })
    | panic e ↦ panic e
  ]

-- ===== src/TreeMap/Remove.antt =====
-- The removal of a key from the tree (near-sdk/src/store/tree_map/mod.rs). The loops down the tree
-- and `check_balance` run on the stored height of the node they start at.
use near_runtime_rs.Base.{
  if◌then◌else◌, ℕ, zero, suc, true, false, Option, none, some, Outcome, done, panic, pure, fail,
  gets, ◌>>=◌, ◌>>◌,
}
use near_runtime_rs.FreeList.Defs.{FreeListIndex}
use near_runtime_rs.FreeList.Defs as FreeList
use near_runtime_rs.TreeMap.Ord.{Ord}
use near_runtime_rs.TreeMap.Tree.{Node, Nodes, Op, Panic, expect, on_list, node, fuel_at}
use near_runtime_rs.TreeMap.Balance.{settle}

-- `Edge`
pub data Edge : Type 0 where
  left right : Edge

abbrev pub NodeAndIndex : Type 0 → Type 0
NodeAndIndex K = FreeListIndex × Node K

-- A node with its parent and the edge between them.
abbrev pub Position : Type 0 → Type 0
Position K = NodeAndIndex K × Option (FreeListIndex × Node K × Edge)

module _ {K : Type 0} where
  unfoldable pub min_from :
      ℕ
      → FreeListIndex
      → Option (NodeAndIndex K)
      → Nodes K
      → Outcome Panic (Option (NodeAndIndex K × Option (NodeAndIndex K)))
  min_from zero at parent nodes = panic Panic.out_of_fuel
  min_from (suc fuel) at parent nodes = elim (node nodes at) [
    | none ↦ done none
    | some n ↦ elim n.lft [
      | some lft ↦ min_from fuel lft (some (at, n)) nodes
      | none ↦ done (some ((at, n), parent))
    ]
  ]

  unfoldable pub min_at :
      FreeListIndex → Nodes K → Outcome Panic (Option (NodeAndIndex K × Option (NodeAndIndex K)))
  unfolding min_from
  min_at at nodes = min_from (fuel_at at nodes) at none nodes

  unfoldable pub max_from :
      ℕ
      → FreeListIndex
      → Option (NodeAndIndex K)
      → Nodes K
      → Outcome Panic (Option (NodeAndIndex K × Option (NodeAndIndex K)))
  max_from zero at parent nodes = panic Panic.out_of_fuel
  max_from (suc fuel) at parent nodes = elim (node nodes at) [
    | none ↦ done none
    | some n ↦ elim n.rgt [
      | some rgt ↦ max_from fuel rgt (some (at, n)) nodes
      | none ↦ done (some ((at, n), parent))
    ]
  ]

  unfoldable pub max_at :
      FreeListIndex → Nodes K → Outcome Panic (Option (NodeAndIndex K × Option (NodeAndIndex K)))
  unfolding max_from
  max_at at nodes = max_from (fuel_at at nodes) at none nodes

  -- A search that changes nothing, as a step of a computation.
  abbrev pub search : {A : Type 0} → (Nodes K → Outcome Panic A) → Op K A
  search f nodes = elim (f nodes) [ done a ↦ done (a, nodes) | panic e ↦ panic e ]

module _ {K : Type 0} ⦃o : Ord K⦄ where
  unfoldable pub lookup_from :
      ℕ
      → FreeListIndex
      → Option (FreeListIndex × Node K × Edge)
      → K
      → Nodes K
      → Outcome Panic (Option (Position K))
  lookup_from zero at p key nodes = panic Panic.out_of_fuel
  lookup_from (suc fuel) at p key nodes = elim (node nodes at) [
    | none ↦ done none
    | some n ↦ elim (o.eq_key n.key key) [
      | true ↦ done (some ((at, n), p))
      | false ↦ elim (o.lt_key n.key key) [
        | true ↦ elim n.rgt [
          | some rgt ↦ lookup_from fuel rgt (some (at, n, right)) key nodes
          | none ↦ done none
        ]
        | false ↦ elim n.lft [
          | some lft ↦ lookup_from fuel lft (some (at, n, left)) key nodes
          | none ↦ done none
        ]
      ]
    ]
  ]

  -- The node at the start must be there.
  unfoldable pub lookup_at : FreeListIndex → K → Op K (Option (Position K))
  unfolding lookup_from
  lookup_at at key = do
    first ← gets (λ s. node s at)
    expect first
    search (λ nodes. lookup_from (fuel_at at nodes) at none key nodes)

  -- The rest of `check_balance` at a node, once its child on the way to the key has been rebuilt.
  abbrev pub check_below :
      (FreeListIndex → Op K FreeListIndex) → Option FreeListIndex → Op K (Option FreeListIndex)
  check_below rec none = pure none
  check_below rec (some c) = do id ← rec c; pure (some id)

  unfoldable pub check_node :
      (FreeListIndex → Op K FreeListIndex)
      → FreeListIndex
      → K
      → Option (Node K)
      → Op K FreeListIndex
  check_node rec at key none = pure at
  check_node rec at key (some n) =
      if o.eq_key n.key key
      then settle n at
      else (if o.lt_key key n.key
          then (do l ← check_below rec n.lft; settle (record n { lft = l }) at)
          else (do r ← check_below rec n.rgt; settle (record n { rgt = r }) at))

  unfoldable pub check_balance : ℕ → FreeListIndex → K → Op K FreeListIndex
  unfolding check_node
  check_balance zero at key = fail Panic.out_of_fuel
  check_balance (suc fuel) at key = do
    found ← gets (λ s. node s at)
    check_node (λ c. check_balance fuel c key) at key found

  -- `self.root.map(|root| self.check_balance(root, key))`
  unfoldable pub rebalance : Option FreeListIndex → K → Op K (Option FreeListIndex)
  unfolding check_balance
  rebalance none key = pure none
  rebalance (some root) key = do
    fuel ← gets (λ s. fuel_at root s)
    at ← check_balance fuel root key
    pure (some at)

  -- `expect(self.nodes.remove(id))`
  unfoldable pub remove_node : FreeListIndex → Op K (Node K)
  unfolding on_list
  remove_node id = do removed ← on_list (FreeList.remove id); expect removed

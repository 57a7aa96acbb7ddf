-- ===== src/TreeMap/Tree.antt =====
-- The tree of the keys: its nodes in a free list, and the loops that look for a key
-- (near-sdk/src/store/tree_map/mod.rs). A loop down the tree runs on fuel: the height that is
-- stored at the node where it starts, and one round more for the node itself.
use near_runtime_rs.Base.{
  ℕ, zero, suc, true, false, Option, none, some, Outcome, done, panic, Action, or_panic,
}
use near_runtime_rs.Store.IndexMap
use near_runtime_rs.FreeList.Defs.{FreeList, FreeListIndex, ListOp}
use near_runtime_rs.FreeList.Defs as FreeList
use near_runtime_rs.TreeMap.Ord.{Ord}

pub record Node (K : Type 0) : Type 0 where
  pub key : K
  pub lft : Option FreeListIndex
  pub rgt : Option FreeListIndex
  pub ht : ℕ

pub record Tree (K : Type 0) : Type 0 where
  pub root : Option FreeListIndex
  pub nodes : FreeList (Node K)

-- `expect` aborts; the free list has panics of its own.
pub data Panic : Type 0 where
  abort height_overflow out_of_fuel : Panic
  list_panic : IndexMap.Panic → Panic

abbrev pub Nodes : Type 0 → Type 0
Nodes K = FreeList (Node K)

-- A computation on the nodes.
abbrev pub Op : Type 0 → Type 0 → Type 0
Op K A = Action Panic (Nodes K) A

abbrev pub expect : {K A : Type 0} → Option A → Op K A
expect o = or_panic o Panic.abort

-- An operation of the free list.
unfoldable pub on_list : {K A : Type 0} → ListOp (Node K) A → Op K A
on_list op s = elim (op s) [ done (a, s') ↦ done (a, s') | panic e ↦ panic (Panic.list_panic e) ]

module _ {K : Type 0} where
  -- `Node::of`
  abbrev pub of : K → Node K
  of key = record { key = key; lft = none; rgt = none; ht = 1 }

  -- `Tree::new`
  unfoldable pub new : Tree K
  new = record { root = none; nodes = FreeList.new }

  abbrev pub node : Nodes K → FreeListIndex → Option (Node K)
  node nodes id = FreeList.get id nodes

  -- The stored height under a link.
  unfoldable pub height_of : Option FreeListIndex → Nodes K → ℕ
  height_of none nodes = 0
  height_of (some id) nodes = elim (node nodes id) [ none ↦ 0 | some n ↦ n.ht ]

  -- The node under a link, with its index.
  unfoldable pub child : Option FreeListIndex → Nodes K → Option (FreeListIndex × Node K)
  child none nodes = none
  child (some id) nodes = elim (node nodes id) [ none ↦ none | some n ↦ some (id, n) ]

  abbrev pub fuel_at : FreeListIndex → Nodes K → ℕ
  fuel_at at nodes = suc (height_of (some at) nodes)

module _ {K : Type 0} ⦃o : Ord K⦄ where
  -- The least key that was seen above the given one.
  unfoldable pub above_from : ℕ → Nodes K → FreeListIndex → K → Option K → Outcome Panic (Option K)
  above_from zero nodes at key seen = panic Panic.out_of_fuel
  above_from (suc fuel) nodes at key seen = elim (node nodes at) [
    | none ↦ done seen
    | some n ↦ elim (o.lt_key key n.key) [
      | false ↦ elim n.rgt [ some rgt ↦ above_from fuel nodes rgt key seen | none ↦ done seen ]
      | true ↦ elim n.lft [
        | some lft ↦ above_from fuel nodes lft key (some n.key)
        | none ↦ done (some n.key)
      ]
    ]
  ]

  unfoldable pub above_at : Nodes K → FreeListIndex → K → Outcome Panic (Option K)
  unfolding above_from
  above_at nodes at key = above_from (fuel_at at nodes) nodes at key none

  -- The greatest key that was seen below the given one.
  unfoldable pub below_from : ℕ → Nodes K → FreeListIndex → K → Option K → Outcome Panic (Option K)
  below_from zero nodes at key seen = panic Panic.out_of_fuel
  below_from (suc fuel) nodes at key seen = elim (node nodes at) [
    | none ↦ done seen
    | some n ↦ elim (o.lt_key n.key key) [
      | true ↦ elim n.rgt [
        | some rgt ↦ below_from fuel nodes rgt key (some n.key)
        | none ↦ done (some n.key)
      ]
      | false ↦ elim n.lft [ some lft ↦ below_from fuel nodes lft key seen | none ↦ done seen ]
    ]
  ]

  unfoldable pub below_at : Nodes K → FreeListIndex → K → Outcome Panic (Option K)
  unfolding below_from
  below_at nodes at key = below_from (fuel_at at nodes) nodes at key none

  unfoldable pub equal_from : ℕ → Nodes K → FreeListIndex → K → Outcome Panic (Option K)
  equal_from zero nodes at key = panic Panic.out_of_fuel
  equal_from (suc fuel) nodes at key = elim (node nodes at) [
    | none ↦ done none
    | some n ↦ elim (o.eq_key n.key key) [
      | true ↦ done (some n.key)
      | false ↦ elim (o.lt_key n.key key) [
        | true ↦ elim n.rgt [ some rgt ↦ equal_from fuel nodes rgt key | none ↦ done none ]
        | false ↦ elim n.lft [ some lft ↦ equal_from fuel nodes lft key | none ↦ done none ]
      ]
    ]
  ]

  unfoldable pub equal_at : Nodes K → FreeListIndex → K → Outcome Panic (Option K)
  unfolding equal_from
  equal_at nodes at key = equal_from (fuel_at at nodes) nodes at key

  unfoldable pub higher : Tree K → K → Outcome Panic (Option K)
  higher t key = elim t.root [ none ↦ done none | some root ↦ above_at t.nodes root key ]

  unfoldable pub lower : Tree K → K → Outcome Panic (Option K)
  lower t key = elim t.root [ none ↦ done none | some root ↦ below_at t.nodes root key ]

  unfoldable pub equal_key : Tree K → K → Outcome Panic (Option K)
  equal_key t key = elim t.root [ none ↦ done none | some root ↦ equal_at t.nodes root key ]

  unfoldable pub floor_key : Tree K → K → Outcome Panic (Option K)
  floor_key t key = elim (equal_key t key) [
    | done (some k) ↦ done (some k)
    | done none ↦ lower t key
    | panic e ↦ panic e
  ]

  unfoldable pub ceil_key : Tree K → K → Outcome Panic (Option K)
  ceil_key t key = elim (equal_key t key) [
    | done (some k) ↦ done (some k)
    | done none ↦ higher t key
    | panic e ↦ panic e
  ]

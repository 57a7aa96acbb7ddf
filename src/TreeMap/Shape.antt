-- ===== src/TreeMap/Shape.antt =====
-- What the nodes stand for: a tree of indices and keys, with the same rotations and insertion on
-- trees (near-sdk/src/store/tree_map/mod.rs).
use near_runtime_rs.Base.{
  ℕ, ◌+◌, ◌==◌, ltb, if◌then◌else◌, true, false, Option, none, some, List, [], ◌∷◌, ◌++◌, max,
}
use near_runtime_rs.FreeList.Defs.{FreeListIndex}
use near_runtime_rs.TreeMap.Ord.{Ord}

pub data Shape (K : Type 0) : Type 0 where
  leaf : Shape K
  branch : FreeListIndex → K → Shape K → Shape K → Shape K

module _ {K : Type 0} where
  abbrev pub height : Shape K → ℕ
  height leaf = 0
  height (branch i k l r) = 1 + max (height l) (height r)

  abbrev pub link : Shape K → Option FreeListIndex
  link leaf = none
  link (branch i k l r) = some i

  abbrev pub size : Shape K → ℕ
  size leaf = 0
  size (branch i k l r) = 1 + size l + size r

  -- How often an index stands in the tree.
  abbrev pub occurs : FreeListIndex → Shape K → ℕ
  occurs j leaf = 0
  occurs j (branch i k l r) = (if j == i then 1 else 0) + occurs j l + occurs j r

  -- The keys from left to right.
  abbrev pub keys : Shape K → List K
  keys leaf = []
  keys (branch i k l r) = keys l ++ (k ∷ keys r)

  unfoldable pub lifted_left : FreeListIndex → K → Shape K → Shape K → Shape K
  lifted_left i k leaf r = branch i k leaf r
  lifted_left i k (branch j m ll lr) r = branch j m ll (branch i k lr r)

  unfoldable pub lifted_right : FreeListIndex → K → Shape K → Shape K → Shape K
  lifted_right i k l leaf = branch i k l leaf
  lifted_right i k l (branch j m rl rr) = branch j m (branch i k l rl) rr

  -- A child that leans inwards is rotated outwards.
  unfoldable pub lean_left : Shape K → Shape K
  unfolding lifted_right
  lean_left leaf = leaf
  lean_left (branch j m ll lr) =
      if ltb (height ll) (height lr) then lifted_right j m ll lr else branch j m ll lr

  unfoldable pub lean_right : Shape K → Shape K
  unfolding lifted_left
  lean_right leaf = leaf
  lean_right (branch j m rl rr) =
      if ltb (height rr) (height rl) then lifted_left j m rl rr else branch j m rl rr

  unfoldable pub balanced : FreeListIndex → K → Shape K → Shape K → Shape K
  unfolding lifted_left lifted_right lean_left lean_right
  balanced i k l r =
      if ltb (height r + 1) (height l)
      then lifted_left i k (lean_left l) r
      else (if ltb (height l + 1) (height r)
          then lifted_right i k l (lean_right r)
          else branch i k l r)

module _ {K : Type 0} ⦃o : Ord K⦄ where
  -- The key goes to a new leaf, in the slot with the given index.
  unfoldable pub inserted : K → FreeListIndex → Shape K → Shape K
  unfolding balanced
  inserted q m leaf = branch m q leaf leaf
  inserted q m (branch i k l r) = elim (o.eq_key q k) [
    | true ↦ branch i k l r
    | false ↦ elim (o.lt_key q k) [
      | true ↦ balanced i k (inserted q m l) r
      | false ↦ balanced i k l (inserted q m r)
    ]
  ]

-- ===== src/FreeList/Defs.antt =====
-- The free list and its operations (near-sdk/src/store/free_list/mod.rs). A vector of slots is a
-- list of slots here; out of bounds its operations panic.
use near_runtime_rs.Base.{
  ℕ, zero, suc, ◌+◌, ◌-◌, Bool, true, false, Option, none, some, List, [], ◌∷◌, ◌++◌, Outcome, done,
  panic, Action, pure, fail, gets, or_panic, modify, require, ◌>>=◌, ◌>>◌, if◌then◌else◌, ◌==◌, ltb,
  leb, not, u32_size, length, get_elem?, take,
}
use near_runtime_rs.Base
use near_runtime_rs.Store.IndexMap.{
  Panic, index_out_of_bounds, inconsistent_state, arithmetic_overflow,
}

-- `FreeListIndex`
abbrev pub FreeListIndex : Type 0
FreeListIndex = ℕ

pub data Slot (T : Type 0) : Type 0 where
  occupied : T → Slot T
  empty : Option FreeListIndex → Slot T

pub record FreeList (T : Type 0) : Type 0 where
  pub first_free : Option FreeListIndex
  pub occupied_count : ℕ
  pub elements : List (Slot T)

abbrev pub ListOp : Type 0 → Type 0 → Type 0
ListOp T A = Action Panic (FreeList T) A

module _ {T : Type 0} where
  abbrev pub into_value : Slot T → Option T
  into_value (occupied v) = some v
  into_value (empty next) = none

  abbrev pub set_elements : List (Slot T) → FreeList T → FreeList T
  set_elements es l = record l { elements = es }

  abbrev pub set_first_free : Option FreeListIndex → FreeList T → FreeList T
  set_first_free o l = record l { first_free = o }

  abbrev pub set_count : ℕ → FreeList T → FreeList T
  set_count n l = record l { occupied_count = n }

  -- `self.elements.replace` and `self.elements.push`.
  abbrev pub replace_element : ℕ → Slot T → ListOp T (Slot T)
  replace_element i x l = elim (get_elem? l.elements i) [
    | some old ↦ done (old, record l { elements = Base.set l.elements i x })
    | none ↦ panic index_out_of_bounds
  ]

  abbrev pub push_element : Slot T → ListOp T (Unit {0})
  push_element x = do
    n ← gets (λ l. length l.elements)
    require (ltb (n + 1) u32_size) index_out_of_bounds
    modify (λ l. set_elements (l.elements ++ (x ∷ [])) l)

  unfoldable pub new : FreeList T
  new = record { first_free = none; occupied_count = 0; elements = [] }

  unfoldable pub list_len : FreeList T → ℕ
  list_len l = l.occupied_count

  unfoldable pub is_empty : FreeList T → Bool
  unfolding list_len
  is_empty l = list_len l == 0

  unfoldable pub clear : FreeList T → FreeList T
  clear l = record { first_free = none; occupied_count = 0; elements = [] }

  unfoldable pub get : FreeListIndex → FreeList T → Option T
  get index l = elim (get_elem? l.elements index) [ some slot ↦ into_value slot | none ↦ none ]

  -- `get_mut` followed by the write of `f` through the reference.
  unfoldable pub get_mut : (T → T) → FreeListIndex → FreeList T → FreeList T
  get_mut f index l = elim (get_elem? l.elements index) [
    | some slot ↦ elim slot [
      | occupied v ↦ set_elements (Base.set l.elements index (occupied (f v))) l
      | empty next ↦ l
    ]
    | none ↦ l
  ]

  -- A vacant cell is filled, and the next one is the first then.
  unfoldable pub fill_vacant : T → FreeListIndex → ListOp T FreeListIndex
  fill_vacant value vacant = do
    prev ← replace_element vacant (occupied value)
    elim prev [
      | empty next_index ↦ modify (set_first_free next_index) >> pure vacant
      | occupied _ ↦ fail inconsistent_state
    ]

  unfoldable pub push_new : T → ListOp T FreeListIndex
  push_new value = do push_element (occupied value); gets (λ l. length l.elements - 1)

  unfoldable pub insert : T → ListOp T FreeListIndex
  insert value = do
    first ← gets (λ l. l.first_free)
    inserted_index ← elim first [ some vacant ↦ fill_vacant value vacant | none ↦ push_new value ]
    count ← gets (λ l. l.occupied_count)
    require (ltb (count + 1) u32_size) arithmetic_overflow
    modify (set_count (count + 1))
    pure inserted_index

  -- The cell that is found at the index is emptied, if it is filled.
  unfoldable pub take_slot : Slot T → FreeListIndex → ListOp T (Option T)
  take_slot (occupied v) index = do
    next_index ← gets (λ l. l.first_free)
    modify (λ l. set_elements (Base.set l.elements index (empty next_index)) l)
    count ← gets (λ l. l.occupied_count)
    require (ltb 0 count) arithmetic_overflow
    modify (set_count (count - 1))
    modify (set_first_free (some index))
    pure (some v)
  take_slot (empty next) index = pure none

  unfoldable pub remove : FreeListIndex → ListOp T (Option T)
  remove index l = elim (get_elem? l.elements index) [
    | some slot ↦ take_slot slot index l
    | none ↦ done (none, l)
  ]

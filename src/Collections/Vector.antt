-- ===== src/Collections/Vector.antt =====
-- The vector that reads and writes its elements in the trie at once
-- (near-sdk/src/collections/vector.rs). A vector's state is passed together with the trie.
use near_runtime_rs.Base.{
  ℕ, zero, suc, ◌+◌, ◌-◌, ◌==◌, ltb, leb, Bool, Option, none, some, List, [], ◌∷◌, ◌++◌,
  if◌then◌else◌, u64_size, Action, pure, fail, gets, or_panic, modify, require, ◌>>=◌, ◌>>◌,
}
use near_runtime_rs.Store.Trie.{Bytes, Trie, Borsh, storage_write, storage_remove, to_le_bytes}

pub record Vector : Type 0 where
  pub len : ℕ
  pub prefix : Bytes

pub data Panic : Type 0 where
  inconsistent_state index_out_of_bounds len_overflow : Panic
  element_serialization element_deserialization wrong_index_length : Panic

-- A vector and the trie.
pub record Storage : Type 0 where
  pub vec : Vector
  pub trie : Trie

abbrev pub Call : Type 0 → Type 0
Call A = Action Panic Storage A

unfoldable pub is_empty : Vector → Bool
is_empty v = v.len == 0

unfoldable pub new : Bytes → Vector
new prefix = record { len = 0; prefix = prefix }

unfoldable pub index_to_lookup_key : Bytes → ℕ → Bytes
index_to_lookup_key prefix index = prefix ++ to_le_bytes 8 index

abbrev pub expect_consistent_state : {A S : Type 0} → Option A → Action Panic S A
expect_consistent_state o = or_panic o Panic.inconsistent_state

abbrev set_len : ℕ → Storage → Storage
set_len n s = record s { vec = record (s.vec) { len = n } }

-- `storage_write` and `storage_remove`, with the evicted value as the answer.
unfoldable pub write : Bytes → Bytes → Call (Option Bytes)
write key value = do
  evicted ← gets (λ s. s.trie key)
  modify (λ s. record s { trie = storage_write key value s.trie })
  pure evicted

unfoldable pub evict : Bytes → Call (Option Bytes)
evict key = do
  evicted ← gets (λ s. s.trie key)
  modify (λ s. record s { trie = storage_remove key s.trie })
  pure evicted

unfoldable pub get_raw : ℕ → Call (Option Bytes)
get_raw index = do
  v ← gets (λ s. s.vec)
  (if leb v.len index then pure none else (do
    raw ← gets (λ s. s.trie (index_to_lookup_key v.prefix index))
    x ← expect_consistent_state raw
    pure (some x)))

unfoldable pub push_raw : Bytes → Call (Unit {0})
unfolding write
push_raw raw_element = do
  v ← gets (λ s. s.vec)
  require (ltb (v.len + 1) u64_size) Panic.len_overflow
  modify (set_len (v.len + 1))
  write (index_to_lookup_key v.prefix v.len) raw_element
  pure tt

unfoldable pub pop_raw : Call (Option Bytes)
unfolding evict is_empty
pop_raw = do
  v ← gets (λ s. s.vec)
  (if is_empty v then pure none else (do
    modify (set_len (v.len - 1))
    evicted ← evict (index_to_lookup_key v.prefix (v.len - 1))
    x ← expect_consistent_state evicted
    pure (some x)))

-- The last element is written over the element at the index, which is returned.
unfoldable pub move_last : ℕ → Call Bytes
unfolding pop_raw write
move_last index = do
  v ← gets (λ s. s.vec)
  last ← pop_raw
  raw_last_value ← expect_consistent_state last
  evicted ← write (index_to_lookup_key v.prefix index) raw_last_value
  expect_consistent_state evicted

unfoldable pub remove_last : Call Bytes
unfolding pop_raw
remove_last = do last ← pop_raw; expect_consistent_state last

unfoldable pub swap_remove_raw : ℕ → Call Bytes
unfolding move_last remove_last
swap_remove_raw index = do
  v ← gets (λ s. s.vec)
  (if leb v.len index
      then fail Panic.index_out_of_bounds
      else (if index + 1 == v.len then remove_last else move_last index))

unfoldable pub replace_raw : ℕ → Bytes → Call Bytes
unfolding write
replace_raw index raw_element = do
  v ← gets (λ s. s.vec)
  (if leb v.len index then fail Panic.index_out_of_bounds else (do
    evicted ← write (index_to_lookup_key v.prefix index) raw_element
    expect_consistent_state evicted))

-- `for el in iter { self.push_raw(&el) }`
unfoldable pub extend_raw : List Bytes → Call (Unit {0})
unfolding push_raw
extend_raw [] = pure tt
extend_raw (raw ∷ iter) = do push_raw raw; extend_raw iter

unfoldable pub remove_elements : Vector → ℕ → ℕ → Trie → Trie
remove_elements v i zero t = t
remove_elements v i (suc n) t =
    remove_elements v (i + 1) n (storage_remove (index_to_lookup_key v.prefix i) t)

unfoldable pub clear : Call (Unit {0})
unfolding remove_elements
clear = do
  v ← gets (λ s. s.vec)
  modify (λ s. record s { trie = remove_elements v 0 v.len s.trie })
  modify (set_len 0)

module _ {T : Type 0} ⦃borsh : Borsh T⦄ where
  unfoldable pub serialize_element : T → Call Bytes
  serialize_element element = or_panic (borsh.serialize element) Panic.element_serialization

  unfoldable pub deserialize_element : Bytes → Call T
  deserialize_element raw = or_panic (borsh.deserialize raw) Panic.element_deserialization

  unfoldable pub deserialize_if_any : Option Bytes → Call (Option T)
  unfolding deserialize_element
  deserialize_if_any none = pure none
  deserialize_if_any (some raw) = do x ← deserialize_element raw; pure (some x)

  unfoldable pub push : T → Call (Unit {0})
  unfolding serialize_element
  push element = do raw ← serialize_element element; push_raw raw

  unfoldable pub extend : List T → Call (Unit {0})
  unfolding push
  extend [] = pure tt
  extend (el ∷ iter) = do push el; extend iter

  unfoldable pub get : ℕ → Call (Option T)
  unfolding deserialize_if_any
  get index = do raw ← get_raw index; deserialize_if_any raw

  unfoldable pub swap_remove : ℕ → Call T
  unfolding deserialize_element
  swap_remove index = do raw ← swap_remove_raw index; deserialize_element raw

  unfoldable pub pop : Call (Option T)
  unfolding deserialize_if_any
  pop = do raw ← pop_raw; deserialize_if_any raw

  unfoldable pub replace : ℕ → T → Call T
  unfolding serialize_element deserialize_element
  replace index element = do
    raw ← serialize_element element
    evicted ← replace_raw index raw
    deserialize_element evicted

-- ===== src/Collections/UnorderedMap.antt =====
-- The map that finds the index of a key in the trie and keeps keys and values in two vectors
-- (near-sdk/src/collections/unordered_map/mod.rs).
use near_runtime_rs.Base.{
  ℕ, ◌+◌, ◌-◌, ◌*◌, ◌==◌, Bool, Option, none, some, [], ◌∷◌, ◌++◌, if◌then◌else◌, done, panic,
  Action, pure, gets, modify, require, ◌>>=◌, ◌>>◌, true, false, length,
}
use near_runtime_rs.Store.Trie.{
  Bytes, Bytes-discrete, Trie, storage_write, storage_remove, to_le_bytes,
}
use near_runtime_rs.Collections.Vector.{
  Vector, Storage, swap_remove_raw, push_raw, replace_raw, expect_consistent_state,
}
use near_runtime_rs.Collections.Vector

pub record UnorderedMap : Type 0 where
  pub key_index_prefix : Bytes
  pub keys : Vector
  pub values : Vector

-- The map and the trie.
pub record MapStorage : Type 0 where
  pub map : UnorderedMap
  pub trie : Trie

abbrev pub MapCall : Type 0 → Type 0
MapCall A = Action Vector.Panic MapStorage A

-- An operation of one of the vectors.
unfoldable pub on_keys : {A : Type 0} → Vector.Call A → MapCall A
on_keys call m = elim (call (record { vec = m.map.keys; trie = m.trie })) [
  | done (a, s) ↦ done (a, record { map = record (m.map) { keys = s.vec }; trie = s.trie })
  | panic e ↦ panic e
]

unfoldable pub on_values : {A : Type 0} → Vector.Call A → MapCall A
on_values call m = elim (call (record { vec = m.map.values; trie = m.trie })) [
  | done (a, s) ↦ done (a, record { map = record (m.map) { values = s.vec }; trie = s.trie })
  | panic e ↦ panic e
]

unfoldable pub len : MapCall ℕ
len = do
  m ← gets (λ s. s.map)
  require (m.keys.len == m.values.len) Vector.Panic.inconsistent_state
  pure m.keys.len

unfoldable pub new : Bytes → UnorderedMap
new prefix = record {
  key_index_prefix = prefix ++ (105 ∷ []);
  keys = Vector.new (prefix ++ (107 ∷ []));
  values = Vector.new (prefix ++ (118 ∷ []));
}

unfoldable pub serialize_index : ℕ → Bytes
serialize_index index = to_le_bytes 8 index

unfoldable pub from_le_bytes : Bytes → ℕ
from_le_bytes [] = 0
from_le_bytes (b ∷ bs) = b + 256 * from_le_bytes bs

-- `copy_from_slice` panics on another length than eight.
unfoldable pub deserialize_index : Bytes → MapCall ℕ
unfolding from_le_bytes
deserialize_index raw = do
  require (length raw == 8) Vector.Panic.wrong_index_length
  pure (from_le_bytes raw)

unfoldable pub raw_key_to_index_lookup : UnorderedMap → Bytes → Bytes
raw_key_to_index_lookup m raw_key = m.key_index_prefix ++ raw_key

unfoldable pub get_index_raw : Bytes → MapCall (Option ℕ)
unfolding deserialize_index
get_index_raw key_raw = do
  m ← gets (λ s. s.map)
  found ← gets (λ s. s.trie (raw_key_to_index_lookup m key_raw))
  elim found [
    | none ↦ pure none
    | some raw_index ↦ do index ← deserialize_index raw_index; pure (some index)
  ]

unfoldable pub get_raw : Bytes → MapCall (Option Bytes)
unfolding get_index_raw on_values
get_raw key_raw = do
  found ← get_index_raw key_raw
  elim found [
    | none ↦ pure none
    | some index ↦ do
      value ← on_values (Vector.get_raw index)
      x ← expect_consistent_state value
      pure (some x)
  ]

unfoldable pub insert_new : Bytes → Bytes → Bytes → MapCall (Option Bytes)
unfolding len serialize_index on_keys on_values
insert_new index_lookup key_raw value_raw = do
  next_index ← len
  modify (λ s. record s { trie = storage_write index_lookup (serialize_index next_index) s.trie })
  on_keys (push_raw key_raw)
  on_values (push_raw value_raw)
  pure none

unfoldable pub insert_raw : Bytes → Bytes → MapCall (Option Bytes)
unfolding insert_new deserialize_index on_values
insert_raw key_raw value_raw = do
  m ← gets (λ s. s.map)
  found ← gets (λ s. s.trie (raw_key_to_index_lookup m key_raw))
  elim found [
    | some index_raw ↦ do
      index ← deserialize_index index_raw
      old ← on_values (replace_raw index value_raw)
      pure (some old)
    | none ↦ insert_new (raw_key_to_index_lookup m key_raw) key_raw value_raw
  ]

abbrev same : Bytes → Bytes → Bool
same a b = elim (Bytes-discrete a b) [ yes _ ↦ true | no _ ↦ false ]

abbrev remove_lookup : Bytes → MapStorage → MapStorage
remove_lookup key s = record s { trie = storage_remove key s.trie }

-- The last key takes the index of the removed one.
unfoldable pub reindex_last : Bytes → Bytes → Bytes → MapCall (Unit {0})
unfolding len on_keys
reindex_last index_lookup key_raw index_raw = do
  n ← len
  last ← on_keys (Vector.get_raw (n - 1))
  last_key_raw ← expect_consistent_state last
  modify (remove_lookup index_lookup)
  m ← gets (λ s. s.map)
  (if same last_key_raw key_raw
      then pure tt
      else modify (λ s. record s {
        trie = storage_write (raw_key_to_index_lookup m last_key_raw) index_raw s.trie;
      }))

unfoldable pub remove_found : Bytes → Bytes → Bytes → MapCall (Option Bytes)
unfolding len on_keys on_values reindex_last deserialize_index
remove_found index_lookup key_raw index_raw = do
  n ← len
  (if n == 1
      then modify (remove_lookup index_lookup)
      else reindex_last index_lookup key_raw index_raw)
  index ← deserialize_index index_raw
  on_keys (swap_remove_raw index)
  value ← on_values (swap_remove_raw index)
  pure (some value)

unfoldable pub remove_raw : Bytes → MapCall (Option Bytes)
unfolding remove_found
remove_raw key_raw = do
  m ← gets (λ s. s.map)
  found ← gets (λ s. s.trie (raw_key_to_index_lookup m key_raw))
  elim found [
    | some index_raw ↦ remove_found (raw_key_to_index_lookup m key_raw) key_raw index_raw
    | none ↦ pure none
  ]

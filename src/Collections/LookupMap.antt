-- ===== src/Collections/LookupMap.antt =====
-- The map whose values are in the trie under their keys (near-sdk/src/collections/lookup_map.rs).
use near_runtime_rs.Base.{
  Bool, Option, none, some, List, [], ◌∷◌, ◌++◌, Action, pure, gets, or_panic, modify, ◌>>=◌, ◌>>◌,
}
use near_runtime_rs.Base.Dict.{is_some}
use near_runtime_rs.Store.Trie.{Bytes, Trie, Borsh, storage_write, storage_remove}

pub record LookupMap : Type 0 where
  pub key_prefix : Bytes

pub data Panic : Type 0 where
  key_serialization value_deserialization value_serialization : Panic

abbrev pub Call : Type 0 → Type 0
Call A = Action Panic Trie A

unfoldable pub new : Bytes → LookupMap
new key_prefix = record { key_prefix = key_prefix }

unfoldable pub raw_key_to_storage_key : LookupMap → Bytes → Bytes
raw_key_to_storage_key m raw_key = m.key_prefix ++ raw_key

unfoldable pub contains_key_raw : LookupMap → Bytes → Call Bool
contains_key_raw m key_raw = gets (λ t. is_some (t (raw_key_to_storage_key m key_raw)))

unfoldable pub get_raw : LookupMap → Bytes → Call (Option Bytes)
get_raw m key_raw = gets (λ t. t (raw_key_to_storage_key m key_raw))

unfoldable pub insert_raw : LookupMap → Bytes → Bytes → Call (Option Bytes)
insert_raw m key_raw value_raw = do
  evicted ← gets (λ t. t (raw_key_to_storage_key m key_raw))
  modify (storage_write (raw_key_to_storage_key m key_raw) value_raw)
  pure evicted

unfoldable pub remove_raw : LookupMap → Bytes → Call (Option Bytes)
remove_raw m key_raw = do
  evicted ← gets (λ t. t (raw_key_to_storage_key m key_raw))
  modify (storage_remove (raw_key_to_storage_key m key_raw))
  pure evicted

module _ {K V : Type 0} (borsh_k : Borsh K) (borsh_v : Borsh V) where
  unfoldable pub serialize_key : K → Call Bytes
  serialize_key key = or_panic (borsh_k.serialize key) Panic.key_serialization

  unfoldable pub deserialize_value : Bytes → Call V
  deserialize_value raw_value = or_panic (borsh_v.deserialize raw_value) Panic.value_deserialization

  unfoldable pub serialize_value : V → Call Bytes
  serialize_value value = or_panic (borsh_v.serialize value) Panic.value_serialization

  unfoldable pub value_if_any : Option Bytes → Call (Option V)
  unfolding deserialize_value
  value_if_any none = pure none
  value_if_any (some value_raw) = do value ← deserialize_value value_raw; pure (some value)

  unfoldable pub contains_key : LookupMap → K → Call Bool
  unfolding serialize_key contains_key_raw
  contains_key m key = do key_raw ← serialize_key key; contains_key_raw m key_raw

  unfoldable pub get : LookupMap → K → Call (Option V)
  unfolding serialize_key get_raw value_if_any
  get m key = do key_raw ← serialize_key key; raw ← get_raw m key_raw; value_if_any raw

  unfoldable pub remove : LookupMap → K → Call (Option V)
  unfolding serialize_key remove_raw value_if_any
  remove m key = do
    key_raw ← serialize_key key
    evicted ← remove_raw m key_raw
    value_if_any evicted

  unfoldable pub insert : LookupMap → K → V → Call (Option V)
  unfolding serialize_key serialize_value insert_raw value_if_any
  insert m key value = do
    key_raw ← serialize_key key
    value_raw ← serialize_value value
    evicted ← insert_raw m key_raw value_raw
    value_if_any evicted

  unfoldable pub extend : LookupMap → List (K × V) → Call (Unit {0})
  unfolding insert
  extend m [] = pure tt
  extend m ((el_key, el_value) ∷ iter) = do insert m el_key el_value; extend m iter

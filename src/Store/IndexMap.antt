-- ===== src/Store/IndexMap.antt =====
-- The cached map from indices to elements (near-sdk/src/store/index_map.rs). An index without an
-- entry and one whose cell is still empty are the same here: both are read from storage.
use near_runtime_rs.Base.{
  ℕ, Option, none, some, [], ◌∷◌, Outcome, done, panic, Action, pure, gets, or_panic, modify, ◌>>=◌,
  ◌>>◌, if◌then◌else◌, ◌==◌,
}
use near_runtime_rs.Base.Dict.{Dict, nat_key, lookup, insert}
use near_runtime_rs.Store.Trie.{
  Bytes, Trie, storage_write, storage_remove, index_to_lookup_key, Borsh,
}
use near_runtime_rs.Store.CacheEntry.{
  CacheEntry, EntryState, new_cached, new_modified, set_value, replace, replace_state, is_modified,
}
use near_runtime_rs.Store.CacheEntry

pub data Panic : Type 0 where
  element_deserialization element_serialization : Panic
  index_out_of_bounds inconsistent_state unwrap_on_none arithmetic_overflow : Panic

abbrev pub Cache : Type 0 → Type 0
Cache T = Dict ℕ (CacheEntry T)

pub record IndexMap (T : Type 0) : Type 0 where
  pub prefix : Bytes
  pub cache : Cache T

-- A call works on the map and the host's storage.
pub record Stored (T : Type 0) : Type 0 where
  pub map : IndexMap T
  pub trie : Trie

abbrev pub Op : Type 0 → Type 0 → Type 0
Op T A = Action Panic (Stored T) A

abbrev pub new : {T : Type 0} → Bytes → IndexMap T
new prefix = record { prefix = prefix; cache = [] }

module _ {T : Type 0} where
  abbrev pub entry_of : ℕ → Stored T → Option (CacheEntry T)
  entry_of i s = lookup i s.map.cache

  abbrev pub put_entry : ℕ → CacheEntry T → Stored T → Stored T
  put_entry i e s = record s { map = record (s.map) { cache = insert i e s.map.cache } }

  unfoldable pub set : ℕ → Option T → Op T (Unit {0})
  set index value = do
    entry ← gets (entry_of index)
    elim entry [
      | some e ↦ modify (put_entry index (set_value value e))
      | none ↦ modify (put_entry index (new_modified value))
    ]

  module _ (borsh : Borsh T) where
    unfoldable pub deserialize_element : Bytes → Op T T
    deserialize_element raw = or_panic (borsh.deserialize raw) element_deserialization

    -- The element as storage holds it.
    unfoldable pub read_element : ℕ → Op T (Option T)
    unfolding deserialize_element
    read_element index = do
      raw ← gets (λ s. s.trie (index_to_lookup_key s.map.prefix index))
      elim raw [ some bytes ↦ deserialize_element bytes >>= λ x. pure (some x) | none ↦ pure none ]

    -- The entry of an index, loaded from storage if the cache has none.
    unfoldable pub get_mut_inner : ℕ → Op T (CacheEntry T)
    unfolding read_element
    get_mut_inner index = do
      entry ← gets (entry_of index)
      elim entry [
        | some e ↦ pure e
        | none ↦ do
          value ← read_element index
          modify (put_entry index (new_cached value))
          pure (new_cached value)
      ]

    unfoldable pub get : ℕ → Op T (Option T)
    get index = do e ← get_mut_inner index; pure e.value

    -- `get_mut` followed by the write of `f` through the reference.
    unfoldable pub get_mut : (T → T) → ℕ → Op T (Option T)
    get_mut f index = do
      e ← get_mut_inner index
      elim e.value [
        | some v ↦ modify (put_entry index (set_value (some (f v)) e)) >> pure (some v)
        | none ↦ modify (put_entry index (set_value none e)) >> pure none
      ]

    unfoldable pub replace_at : ℕ → Option T → Op T (Option T)
    replace_at index value = do
      e ← get_mut_inner index
      modify (put_entry index (replace value e).0)
      pure (replace value e).1

    unfoldable pub insert_element : ℕ → T → Op T (Option T)
    insert_element index element = replace_at index (some element)

    unfoldable pub remove : ℕ → Op T (Option T)
    remove index = replace_at index none

    unfoldable pub swap : ℕ → ℕ → Op T (Unit {0})
    swap a b =
        if a == b
        then pure tt
        else (do val_a ← replace_at a none; val_b ← replace_at b val_a; replace_at a val_b; pure tt)

    -- The write of one modified entry, and its new state.
    unfoldable pub flush_entry :
        Bytes → ℕ → CacheEntry T → Trie → Outcome Panic (CacheEntry T × Trie)
    flush_entry prefix index e t =
        if is_modified e
        then elim e.value [
          | some v ↦ elim (borsh.serialize v) [
            | some bytes ↦ done (
              replace_state CacheEntry.EntryState.cached e,
              storage_write (index_to_lookup_key prefix index) bytes t,
            )
            | none ↦ panic element_serialization
          ]
          | none ↦ done (
            replace_state CacheEntry.EntryState.cached e,
            storage_remove (index_to_lookup_key prefix index) t,
          )
        ]
        else done (e, t)

    unfoldable pub flush_entries : Bytes → Cache T → Trie → Outcome Panic (Cache T × Trie)
    flush_entries prefix [] t = done ([], t)
    flush_entries prefix ((i, e) ∷ es) t = elim (flush_entry prefix i e t) [
      | done (e', t') ↦ elim (flush_entries prefix es t') [
        | done (es', t'') ↦ done ((i, e') ∷ es', t'')
        | panic p ↦ panic p
      ]
      | panic p ↦ panic p
    ]

    unfoldable pub flush : Op T (Unit {0})
    flush s = elim (flush_entries s.map.prefix s.map.cache s.trie) [
      | done (c, t) ↦ done (tt, record { map = record (s.map) { cache = c }; trie = t })
      | panic p ↦ panic p
    ]

-- ===== src/Store/LookupMap.antt =====
-- The cached map from keys to values (near-sdk/src/store/lookup_map/mod.rs). A key without an entry
-- and one whose cell is still empty are the same here. The hash that an entry keeps is that of its
-- key, which is computed anew here.
use near_runtime_rs.Base.{
  Bool, true, false, Option, none, some, [], ◌∷◌, Outcome, done, panic, Action, pure, gets,
  or_panic, modify, ◌>>=◌, ◌>>◌, if◌then◌else◌,
}
use near_runtime_rs.Base.Dict.{Dict, Key, lookup, insert, is_some}
use near_runtime_rs.Store.Trie.{Bytes, Trie, storage_write, storage_remove, Borsh}
use near_runtime_rs.Store.CacheEntry.{
  CacheEntry, EntryState, new_cached, new_modified, set_value, replace, replace_state, is_modified,
}
use near_runtime_rs.Store.CacheEntry
use near_runtime_rs.Store.IndexMap.{Panic, element_deserialization, element_serialization}

-- `H::to_key`
abbrev pub ToKey : Type 0 → Type 0
ToKey K = Bytes → K → Bytes

pub record LookupMap (K V : Type 0) : Type 0 where
  pub prefix : Bytes
  pub cache : Dict K (CacheEntry V)

-- A call works on the map and the host's storage.
pub record Stored (K V : Type 0) : Type 0 where
  pub map : LookupMap K V
  pub trie : Trie

abbrev pub Op : Type 0 → Type 0 → Type 0 → Type 0
Op K V A = Action Panic (Stored K V) A

abbrev pub with_hasher : {K V : Type 0} → Bytes → LookupMap K V
with_hasher prefix = record { prefix = prefix; cache = [] }

module _ {K V : Type 0} ⦃key : Key K⦄ where
  abbrev pub entry_of : K → Stored K V → Option (CacheEntry V)
  entry_of k s = lookup k s.map.cache

  abbrev pub put_entry : K → CacheEntry V → Stored K V → Stored K V
  put_entry k e s = record s { map = record (s.map) { cache = insert k e s.map.cache } }

  unfoldable pub set : K → Option V → Op K V (Unit {0})
  set k value = do
    entry ← gets (entry_of k)
    elim entry [
      | some e ↦ modify (put_entry k (set_value value e))
      | none ↦ modify (put_entry k (new_modified value))
    ]

  module _ (borsh : Borsh V) (to_key : ToKey K) where
    unfoldable pub load_element : K → Op K V (Option V)
    load_element k = do
      raw ← gets (λ s. s.trie (to_key s.map.prefix k))
      elim raw [
        | some bytes ↦
            or_panic (borsh.deserialize bytes) element_deserialization >>= λ x. pure (some x)
        | none ↦ pure none
      ]

    -- The entry of a key, loaded from storage if the cache has none.
    unfoldable pub get_mut_inner : K → Op K V (CacheEntry V)
    unfolding load_element
    get_mut_inner k = do
      entry ← gets (entry_of k)
      elim entry [
        | some e ↦ pure e
        | none ↦ do
          value ← load_element k
          modify (put_entry k (new_cached value))
          pure (new_cached value)
      ]

    unfoldable pub get : K → Op K V (Option V)
    get k = do e ← get_mut_inner k; pure e.value

    -- `get_mut` followed by the write of `f` through the reference.
    unfoldable pub get_mut : (V → V) → K → Op K V (Option V)
    get_mut f k = do
      e ← get_mut_inner k
      elim e.value [
        | some v ↦ modify (put_entry k (set_value (some (f v)) e)) >> pure (some v)
        | none ↦ modify (put_entry k (set_value none e)) >> pure none
      ]

    unfoldable pub replace_at : K → Option V → Op K V (Option V)
    replace_at k value = do
      e ← get_mut_inner k
      modify (put_entry k (replace value e).0)
      pure (replace value e).1

    unfoldable pub insert_value : K → V → Op K V (Option V)
    insert_value k v = replace_at k (some v)

    unfoldable pub remove : K → Op K V (Option V)
    remove k = replace_at k none

    -- The cache is asked first. What storage does not have is put down as absent.
    unfoldable pub contains_key : K → Op K V Bool
    contains_key k = do
      entry ← gets (entry_of k)
      elim entry [
        | some e ↦ pure (is_some e.value)
        | none ↦ do
          raw ← gets (λ s. s.trie (to_key s.map.prefix k))
          elim raw [
            | some bytes ↦ pure true
            | none ↦ modify (put_entry k (new_cached none)) >> pure false
          ]
      ]

    -- The write of one modified entry, and its new state.
    unfoldable pub flush_entry :
        Bytes → K → CacheEntry V → Trie → Outcome Panic (CacheEntry V × Trie)
    flush_entry prefix k e t =
        if is_modified e
        then elim e.value [
          | some v ↦ elim (borsh.serialize v) [
            | some bytes ↦ done (
              replace_state CacheEntry.EntryState.cached e,
              storage_write (to_key prefix k) bytes t,
            )
            | none ↦ panic element_serialization
          ]
          | none ↦
              done
                (replace_state CacheEntry.EntryState.cached e, storage_remove (to_key prefix k) t)
        ]
        else done (e, t)

    unfoldable pub flush_entries :
        Bytes → Dict K (CacheEntry V) → Trie → Outcome Panic (Dict K (CacheEntry V) × Trie)
    flush_entries prefix [] t = done ([], t)
    flush_entries prefix ((k, e) ∷ es) t = elim (flush_entry prefix k e t) [
      | done (e', t') ↦ elim (flush_entries prefix es t') [
        | done (es', t'') ↦ done ((k, e') ∷ es', t'')
        | panic p ↦ panic p
      ]
      | panic p ↦ panic p
    ]

    unfoldable pub flush : Op K V (Unit {0})
    flush s = elim (flush_entries s.map.prefix s.map.cache s.trie) [
      | done (c, t) ↦ done (tt, record { map = record (s.map) { cache = c }; trie = t })
      | panic p ↦ panic p
    ]

-- ===== src/Collections/LookupLaws.antt =====
-- What a key of the lookup map holds, before and after its operations
-- (near-sdk/src/collections/lookup_map.rs).
use near_runtime_rs.Base.{◌≡◌, ◌≢◌, Option, none, some, done, arith, ap, sym, ◌∙◌, subst}
use near_runtime_rs.Store.Trie.{
  Bytes, Trie, Borsh, storage_write, storage_remove, write_self, write_ne, remove_self, remove_ne,
  append_left_injective,
}
use near_runtime_rs.Collections.LookupMap.{
  LookupMap, raw_key_to_storage_key, get_raw, insert_raw, remove_raw, serialize_key,
  serialize_value, deserialize_value, value_if_any, get, remove, insert,
}

module _ {K V : Type 0} (borsh_k : Borsh K) (borsh_v : Borsh V) (m : LookupMap) where
  abbrev Stands : Option Bytes → Option V → Type 0
  Stands raw none = raw ≡ none
  Stands raw (some v) = (b : Bytes) × (raw ≡ some b) × (borsh_v.deserialize b ≡ some v)

  -- The key holds the value, or nothing.
  abbrev pub Holds : Trie → K → Option V → Type 0
  Holds t k o =
      (b : Bytes) → borsh_k.serialize k ≡ some b → Stands (t (raw_key_to_storage_key m b)) o

  value_if_any_lem :
      (raw : Option Bytes) (o : Option V) (t : Trie)
      → Stands raw o
      → value_if_any borsh_k borsh_v raw t ≡ done (o, t)
  unfolding value_if_any deserialize_value
  value_if_any_lem raw none t e = ground (arith, e)
  value_if_any_lem raw (some v) t e = ground (arith, e.1, e.2)

  storage_key_injective :
      (j k : K) (a b : Bytes)
      → borsh_k.serialize j ≡ some a
      → borsh_k.serialize k ≡ some b
      → j ≢ k
      → raw_key_to_storage_key m a ≢ raw_key_to_storage_key m b
  unfolding raw_key_to_storage_key
  storage_key_injective j k a b ea eb ne e =
      let same : a ≡ b = append_left_injective (m.key_prefix) a b e in
      ne (
        ground
          (arith, same, borsh_k.deserialize-serialize j a ea, borsh_k.deserialize-serialize k b eb))

  module _ (k : K) (o : Option V) (t : Trie) {b : Bytes} (eb : borsh_k.serialize k ≡ some b)
      (h : Holds t k o) where
    -- For a key that can be serialized, a read returns what it holds and changes nothing.
    pub get_lem : get borsh_k borsh_v m k t ≡ done (o, t)
    unfolding get serialize_key get_raw
    get_lem = ground (arith, eb, value_if_any_lem (t (raw_key_to_storage_key m b)) o t (h b eb))

    -- For a key and a value that can be serialized, an insertion returns what the key held. The
    -- key holds the value then, and the other keys hold what they held.
    pub lookup_insert_lem :
        (v : V) {r : Bytes}
        → borsh_v.serialize v ≡ some r
        → (u : Trie) × (insert borsh_k borsh_v m k v t ≡ done (o, u))
          × Holds u k (some v)
          × ((j : K) (q : Option V) → j ≢ k → Holds t j q → Holds u j q)
    unfolding insert serialize_key serialize_value insert_raw
    lookup_insert_lem v {r} er =
        let key = raw_key_to_storage_key m b in
        let u = storage_write key r t in
        (
          u,
          ground (arith, eb, er, value_if_any_lem (t key) o u (h b eb)),
          λ c ec. (
            r,
            ap u (ap (raw_key_to_storage_key m) (ground (arith, ec, eb))) ∙ write_self key r t,
            borsh_v.deserialize-serialize v r er,
          ),
          λ j q ne hj c ec.
              subst (λ x. Stands x q)
                (sym (
                  write_ne key (raw_key_to_storage_key m c) r t
                    (storage_key_injective j k c b ec eb ne)))
                (hj c ec),
        )

    -- For a key that can be serialized, a removal returns what the key held. The key holds nothing
    -- then, and the other keys hold what they held.
    pub lookup_remove_lem :
        (u : Trie) × (remove borsh_k borsh_v m k t ≡ done (o, u))
        × Holds u k none
        × ((j : K) (q : Option V) → j ≢ k → Holds t j q → Holds u j q)
    unfolding remove serialize_key remove_raw
    lookup_remove_lem =
        let key = raw_key_to_storage_key m b in
        let u = storage_remove key t in
        (
          u,
          ground (arith, eb, value_if_any_lem (t key) o u (h b eb)),
          λ c ec. ap u (ap (raw_key_to_storage_key m) (ground (arith, ec, eb))) ∙ remove_self key t,
          λ j q ne hj c ec.
              subst (λ x. Stands x q)
                (sym (
                  remove_ne key (raw_key_to_storage_key m c) t
                    (storage_key_injective j k c b ec eb ne)))
                (hj c ec),
        )

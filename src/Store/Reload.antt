-- ===== src/Store/Reload.antt =====
-- A flushed map can be loaded again (near-sdk/src/store/index_map.rs, flush and new).
use near_runtime_rs.Base.{
  ℕ, ◌<◌, ◌≡◌, ◌≢◌, Option, none, some, Outcome, done, panic, u32_size, arith, refl, subst, sym,
  ◌∙◌, Option-cases, inl, inr, dec_lt,
}
use near_runtime_rs.Base.Dict.{nat_key}
use near_runtime_rs.Store.Trie.{Bytes, Trie, Borsh}
use near_runtime_rs.Store.CacheEntry.{CacheEntry}
use near_runtime_rs.Store.IndexMap.{Stored, Cache, Panic, entry_of, flush_entries, flush, new}
use near_runtime_rs.Store.Represents.{Stores, stored_at, Represents, Holds, HoldsEntry, Holds-some}
use near_runtime_rs.Store.Flush.{
  key, Flushed, FlushedAt, AllWritten, flush_entries_lem, Clean, Clean-of,
}

module _ {T : Type 0} (borsh : Borsh T) where
  Clean-cache :
      (s : Stored T) (f : ℕ → Option T)
      → Represents borsh s f
      → Clean borsh s.map.prefix s.trie s.map.cache
  Clean-cache s f r = Clean-of borsh s.map.prefix s.map.cache s.trie r.distinct λ j e found.
      let (lt, same, clean) = Holds-some borsh j s (f j) e found (r.holds j) in
      (lt, λ c. subst (Stores borsh (stored_at borsh j s)) (sym same) (clean c))

  -- What the flush did to an index, told by what the index held.
  HoldsEntry-flushed :
      (p : Bytes) (o o' : Option (CacheEntry T)) (b b' : Option Bytes) (i : ℕ) (v : Option T)
      → i < u32_size
      → FlushedAt borsh p o o' b b'
      → HoldsEntry borsh o b i v
      → HoldsEntry borsh o' b' i v × Stores borsh b' v
  HoldsEntry-flushed p none none b b' i v lt f h =
      let now = subst (λ c. Stores borsh c v) (sym f) (h lt) in (λ _. now, now)
  HoldsEntry-flushed p none (some e') b b' i v lt f h = absurd f
  HoldsEntry-flushed p (some e) none b b' i v lt f h = absurd f
  HoldsEntry-flushed p (some e) (some e') b b' i v lt (same, stored) (_, is_v, _) =
      let now = subst (Stores borsh b') is_v stored in ((lt, same ∙ is_v, (λ _. now)), now)

  -- The entries of indices out of range are none before, and so they are after.
  module _ (s : Stored T) (f : ℕ → Option T) (r : Represents borsh s f) (c' : Cache T) (t' : Trie)
      (flushed : Flushed borsh s.map.prefix s.map.cache s.trie c' t') where
    abbrev after : Stored T
    after = record { map = record (s.map) { cache = c' }; trie = t' }

    after_at :
        (i : ℕ)
        → i < u32_size
        → Holds borsh after i (f i) × Stores borsh (stored_at borsh i after) (f i)
    after_at i lt =
        HoldsEntry-flushed s.map.prefix (entry_of i s) (entry_of i after) _ _ i (f i) lt
          (flushed.at i lt) (r.holds i)

    no_entry : (i : ℕ) → ¬ (i < u32_size) → entry_of i s ≡ none
    no_entry i out = elim (Option-cases (entry_of i s)) [
      | inl gone ↦ gone
      | inr (e, found) ↦ absurd (out (Holds-some borsh i s (f i) e found (r.holds i)).0)
    ]

    after-Represents : Represents borsh after f
    after-Represents = record {
      distinct = flushed.distinct;
      holds = λ i. elim (dec_lt i u32_size) [
        | yes lt ↦ (after_at i lt).0
        | no out ↦
            subst (λ o. HoldsEntry borsh o (stored_at borsh i after) i (f i))
              (sym (flushed.absent i (no_entry i out))) (λ lt. absurd (out lt))
      ];
    }

    reloaded-Represents : Represents borsh (record { map = new s.map.prefix; trie = t' }) f
    reloaded-Represents = record { distinct = tt; holds = λ i lt. (after_at i lt).1 }

  -- If every element can be serialized, a flush returns. The map stands for the same then, and so
  -- does a new map with the same prefix and an empty cache; the keys of other collections, which
  -- differ from all of the map's, hold what they held.
  pub flush_then_reload :
      ((x : T) → (b : Bytes) × (borsh.serialize x ≡ some b))
      → (s : Stored T) (f : ℕ → Option T) → Represents borsh s f
      → (s' : Stored T) × (flush borsh s ≡ done (tt, s'))
        × Represents borsh s' f
        × Represents borsh (record { map = new s.map.prefix; trie = s'.trie }) f
        × ((k : Bytes)
            → ((j : ℕ) → j < u32_size → k ≢ key borsh s.map.prefix j)
            → s'.trie k ≡ s.trie k)
  unfolding flush
  flush_then_reload total s f r =
      go (flush_entries borsh s.map.prefix s.map.cache s.trie) refl
        (flush_entries_lem borsh s.map.prefix s.map.cache s.trie (Clean-cache s f r))
    where
      go :
          (o : Outcome Panic (Cache T × Trie))
          → flush_entries borsh s.map.prefix s.map.cache s.trie ≡ o
          → AllWritten borsh s.map.prefix s.map.cache s.trie o
          → (s' : Stored T) × (flush borsh s ≡ done (tt, s'))
            × Represents borsh s' f
            × Represents borsh (record { map = new s.map.prefix; trie = s'.trie }) f
            × ((k : Bytes)
                → ((j : ℕ) → j < u32_size → k ≢ key borsh s.map.prefix j)
                → s'.trie k ≡ s.trie k)
      go (done (c', t')) e w = (
        after s f r c' t' w,
        ground arith,
        after-Represents s f r c' t' w,
        reloaded-Represents s f r c' t' w,
        w.others,
      )
      go (panic p) e (_, (x, fails)) = let (b, works) = total x in cc

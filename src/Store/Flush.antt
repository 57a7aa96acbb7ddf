-- ===== src/Store/Flush.antt =====
-- Flushing the cached map (near-sdk/src/store/index_map.rs, flush).
use near_runtime_rs.Base.{
  ℕ, ◌<◌, ◌≡◌, ◌≢◌, Option, none, some, [], ◌∷◌, Outcome, done, panic, u32_size, arith, refl, subst,
  sym, ◌∙◌, ℕ_discrete, if_pos, if_neg,
}
use near_runtime_rs.Base.Dict.{nat_key, lookup, Distinct}
use near_runtime_rs.Store.Trie.{
  Bytes, Trie, index_to_lookup_key, lookup_key-injective, Borsh, storage_write, write_self,
  write_ne, remove_self, remove_ne,
}
use near_runtime_rs.Store.CacheEntry.{
  CacheEntry, EntryState, cached, modified, replace_state, is_modified,
}
use near_runtime_rs.Store.IndexMap.{Cache, Panic, element_serialization, flush_entry, flush_entries}
use near_runtime_rs.Store.Represents.{Stores}

module _ {T : Type 0} (borsh : Borsh T) (prefix : Bytes) where
  abbrev pub key : ℕ → Bytes
  key = index_to_lookup_key prefix

  -- After its write an entry has its value, storage has it too, and no other key has changed.
  record Written (i : ℕ) (e : CacheEntry T) (t : Trie) (e' : CacheEntry T) (t' : Trie)
      : Type 0 where
    value : e'.value ≡ e.value
    stored : Stores borsh (t' (key i)) e.value
    others : (k : Bytes) → k ≢ key i → t' k ≡ t k

  -- The panic is that of an element that cannot be serialized.
  abbrev pub Unserializable : Panic → Type 0
  Unserializable p = (p ≡ element_serialization) × ((x : T) × (borsh.serialize x ≡ none))

  abbrev EntryWritten : ℕ → CacheEntry T → Trie → Outcome Panic (CacheEntry T × Trie) → Type 0
  EntryWritten i e t (done (e', t')) = Written i e t e' t'
  EntryWritten i e t (panic p) = Unserializable p

  flush_entry_lem :
      (i : ℕ) (v : Option T) (st : EntryState) (t : Trie)
      → (st ≡ cached → Stores borsh (t (key i)) v)
      → EntryWritten i
          (record { value = v; state = st })
          t
          (flush_entry borsh prefix i (record { value = v; state = st }) t)
  unfolding flush_entry replace_state is_modified
  flush_entry_lem i v cached t clean = record {
    value = refl;
    stored = clean refl;
    others = λ k ne. refl;
  }
  flush_entry_lem i none modified t clean = record {
    value = refl;
    stored = subst (λ o. Stores borsh o none) (sym (remove_self (key i) t)) tt;
    others = λ k ne. remove_ne (key i) k t ne;
  }
  flush_entry_lem i (some x) modified t clean = go (borsh.serialize x) refl
    where
      go :
          (o : Option Bytes)
          → borsh.serialize x ≡ o
          → EntryWritten i
              (record { value = some x; state = modified })
              t
              (elim o [
                | some bytes ↦ done (
                  replace_state cached (record { value = some x; state = modified }),
                  storage_write (key i) bytes t,
                )
                | none ↦ panic element_serialization
              ])
      go (some b) e = record {
        value = refl;
        stored =
            subst (λ o. Stores borsh o (some x)) (sym (write_self (key i) b t))
              (borsh.deserialize-serialize x b e);
        others = λ k ne. write_ne (key i) k b t ne;
      }
      go none e = (refl, (x, e))

  -- The entries that are left: their indices differ and fit, and a clean one agrees with storage.
  abbrev pub Clean : Trie → Cache T → Type 0
  Clean t [] = Unit
  Clean t ((i, e) ∷ es) =
      (i < u32_size)
      × (e.state ≡ cached → Stores borsh (t (key i)) e.value)
      × (lookup i es ≡ none)
      × Clean t es

  Clean-after :
      (i : ℕ) (es : Cache T) (t t' : Trie)
      → i < u32_size
      → lookup i es ≡ none
      → ((k : Bytes) → k ≢ key i → t' k ≡ t k)
      → Clean t es
      → Clean t' es
  Clean-after i [] t t' lt fresh others c = tt
  Clean-after i ((j, e) ∷ es) t t' lt fresh others (lj, clean, new_j, c) = (
    lj,
    (λ st. subst (λ o. Stores borsh o e.value) (sym (others (key j) differs)) (clean st)),
    new_j,
    Clean-after i es t t' lt (ground arith) others c,
  )
    where
      ne : j ≢ i
      ne p = ground arith

      differs : key j ≢ key i
      differs p = ne (lookup_key-injective prefix j i lj lt p)

  -- What the flush has done to one index.
  abbrev pub FlushedAt :
      Option (CacheEntry T) → Option (CacheEntry T) → Option Bytes → Option Bytes → Type 0
  FlushedAt none none b b' = b' ≡ b
  FlushedAt (some e) (some e') b b' = (e'.value ≡ e.value) × Stores borsh b' e.value
  FlushedAt none (some e') b b' = ⊥
  FlushedAt (some e) none b b' = ⊥

  pub record Flushed (c : Cache T) (t : Trie) (c' : Cache T) (t' : Trie) : Type 0 where
    pub distinct : Distinct c'
    pub absent : (j : ℕ) → lookup j c ≡ none → lookup j c' ≡ none
    pub at : (j : ℕ) → j < u32_size → FlushedAt (lookup j c) (lookup j c') (t (key j)) (t' (key j))
    pub others : (k : Bytes) → ((j : ℕ) → j < u32_size → k ≢ key j) → t' k ≡ t k

  FlushedAt-absent :
      (o : Option (CacheEntry T)) (b b' : Option Bytes)
      → FlushedAt none o b b'
      → (o ≡ none) × (b' ≡ b)
  FlushedAt-absent none b b' h = (refl, h)
  FlushedAt-absent (some e) b b' h = absurd h

  module _ (i : ℕ) (e e1 : CacheEntry T) (es es' : Cache T) (t t1 t2 : Trie) (lt : i < u32_size)
      (fresh : lookup i es ≡ none) (w : Written i e t e1 t1) (rest : Flushed es t1 es' t2) where
    head_absent : (lookup i es' ≡ none) × (t2 (key i) ≡ t1 (key i))
    head_absent =
        FlushedAt-absent (lookup i es') _ _
          (subst (λ o. FlushedAt o (lookup i es') (t1 (key i)) (t2 (key i))) fresh (rest.at i lt))

    at_head : FlushedAt (some e) (some e1) (t (key i)) (t2 (key i))
    at_head = (w.value, subst (λ o. Stores borsh o e.value) (sym head_absent.1) w.stored)

    at_tail :
        (j : ℕ)
        → j < u32_size
        → j ≢ i
        → FlushedAt (lookup j es) (lookup j es') (t (key j)) (t2 (key j))
    at_tail j lj ne =
        subst (λ o. FlushedAt (lookup j es) (lookup j es') o (t2 (key j)))
          (w.others (key j) (λ p. ne (lookup_key-injective prefix j i lj lt p))) (rest.at j lj)

    Flushed-cons : Flushed ((i, e) ∷ es) t ((i, e1) ∷ es') t2
    Flushed-cons = record {
      distinct = (head_absent.0, rest.distinct);
      absent = λ j h. let gone = rest.absent j in ground arith;
      at = λ j lj. elim (ℕ_discrete j i) [
        | yes p ↦
            rw (if_pos _ p, if_pos _ p)
              (subst (λ k. FlushedAt (some e) (some e1) (t (key k)) (t2 (key k))) (sym p) at_head)
        | no p ↦ rw (if_neg _ p, if_neg _ p) (at_tail j lj p)
      ];
      others = λ k ne. rest.others k ne ∙ w.others k (ne i lt);
    }

  abbrev pub AllWritten : Cache T → Trie → Outcome Panic (Cache T × Trie) → Type 0
  AllWritten c t (done (c', t')) = Flushed c t c' t'
  AllWritten c t (panic p) = Unserializable p

  abbrev rest_flushed :
      ℕ → CacheEntry T → Outcome Panic (Cache T × Trie) → Outcome Panic (Cache T × Trie)
  rest_flushed i e1 o = elim o [ done (es', t'') ↦ done ((i, e1) ∷ es', t'') | panic p ↦ panic p ]

  rest_lem :
      (i : ℕ) (e e1 : CacheEntry T) (es : Cache T) (t t1 : Trie)
      → i < u32_size
      → lookup i es ≡ none
      → Written i e t e1 t1
      → (o : Outcome Panic (Cache T × Trie)) → AllWritten es t1 o
      → AllWritten ((i, e) ∷ es) t (rest_flushed i e1 o)
  rest_lem i e e1 es t t1 lt fresh w (done (es', t2)) f =
      Flushed-cons i e e1 es es' t t1 t2 lt fresh w f
  rest_lem i e e1 es t t1 lt fresh w (panic p) f = f

  cons_lem :
      (i : ℕ) (e : CacheEntry T) (es : Cache T) (t : Trie)
      → Clean t ((i, e) ∷ es)
      → ((t1 : Trie) → Clean t1 es → AllWritten es t1 (flush_entries borsh prefix es t1))
      → (o : Outcome Panic (CacheEntry T × Trie)) → EntryWritten i e t o
      → AllWritten ((i, e) ∷ es) t (elim o [
        | done (e1, t1) ↦ rest_flushed i e1 (flush_entries borsh prefix es t1)
        | panic p ↦ panic p
      ])
  cons_lem i e es t h ih (panic p) w = w
  cons_lem i e es t (lt, clean, fresh, rest) ih (done (e1, t1)) w =
      rest_lem i e e1 es t t1 lt fresh w _ (ih t1 (Clean-after i es t t1 lt fresh w.others rest))

  pub flush_entries_lem :
      (c : Cache T) (t : Trie) → Clean t c → AllWritten c t (flush_entries borsh prefix c t)
  unfolding flush_entries
  flush_entries_lem [] t h = record {
    distinct = tt;
    absent = λ j h. refl;
    at = λ j lt. refl;
    others = λ k ne. refl;
  }
  flush_entries_lem ((i, e) ∷ es) t h =
      cons_lem i e es t h (λ t1 c. flush_entries_lem es t1 c) (flush_entry borsh prefix i e t)
        (flush_entry_lem i e.value e.state t h.1)

  -- The cache of a map that stands for something is clean in this sense.
  pub Clean-of :
      (c : Cache T) (t : Trie)
      → Distinct c
      → ((j : ℕ) (e : CacheEntry T)
          → lookup j c ≡ some e
          → (j < u32_size) × (e.state ≡ cached → Stores borsh (t (key j)) e.value))
      → Clean t c
  Clean-of [] t d h = tt
  Clean-of ((i, e) ∷ es) t (fresh, d) h =
      let here = h i e (ground arith) in
      (here.0, here.1, fresh, Clean-of es t d λ j x found. h j x (ground arith))

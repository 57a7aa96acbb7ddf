-- ===== src/Store/Represents.antt =====
-- What a cached map stands for, and how its operations change that
-- (near-sdk/src/store/index_map.rs).
use near_runtime_rs.Base.{
  ℕ, ◌<◌, ◌≡◌, ◌≢◌, Option, none, some, done, u32_size, ◌==◌, if◌then◌else◌, arith, refl, subst,
  sym, ◌∙◌, Option-cases, inl, inr, ℕ_discrete,
}
use near_runtime_rs.Base.Dict.{
  nat_key, lookup-insert_self, lookup-insert_ne, Distinct, insert-Distinct,
}
use near_runtime_rs.Store.Trie.{Bytes, index_to_lookup_key, Borsh}
use near_runtime_rs.Store.CacheEntry.{CacheEntry, cached, new_cached}
use near_runtime_rs.Store.IndexMap.{Stored, entry_of, put_entry, get_mut_inner, read_element}

-- The map with one index given anew.
abbrev pub update : {T : Type 0} → ℕ → Option T → (ℕ → Option T) → ℕ → Option T
update i v f j = if i == j then v else f j

module _ {T : Type 0} (i j : ℕ) (v : Option T) (f : ℕ → Option T) where
  pub update_ne : i ≢ j → update i v f j ≡ f j
  update_ne ne = ground arith

pub update_self : {T : Type 0} (i : ℕ) (v : Option T) (f : ℕ → Option T) → update i v f i ≡ v
update_self i v f = ground arith

pub update_ext :
    {T : Type 0} (i : ℕ) (v : Option T) (f g : ℕ → Option T)
    → v ≡ g i
    → ((j : ℕ) → i ≢ j → f j ≡ g j)
    → (j : ℕ) → update i v f j ≡ g j
update_ext i v f g e h j = elim (ℕ_discrete i j) [
  | yes p ↦ subst (λ k. update i v f k ≡ g k) p (update_self i v f ∙ e)
  | no p ↦ update_ne i j v f p ∙ h j p
]

pub update_same : {T : Type 0} (i : ℕ) (f : ℕ → Option T) (j : ℕ) → update i (f i) f j ≡ f j
update_same i f j = elim (ℕ_discrete i j) [
  | yes p ↦ subst (λ k. update i (f i) f k ≡ f k) p (update_self i (f i) f)
  | no p ↦ update_ne i j (f i) f p
]

module _ {T : Type 0} (borsh : Borsh T) where
  -- The bytes at a key, if any, are those of the element.
  abbrev pub Stores : Option Bytes → Option T → Type 0
  Stores none none = Unit
  Stores none (some v) = ⊥
  Stores (some b) none = ⊥
  Stores (some b) (some v) = borsh.deserialize b ≡ some v

  abbrev pub stored_at : ℕ → Stored T → Option Bytes
  stored_at i s = s.trie (index_to_lookup_key s.map.prefix i)

  -- An index holds `v`: its entry in the cache does, and storage does wherever the cache has no
  -- entry or a clean one.
  abbrev pub HoldsEntry : Option (CacheEntry T) → Option Bytes → ℕ → Option T → Type 0
  HoldsEntry none b i v = i < u32_size → Stores b v
  HoldsEntry (some e) b i v = (i < u32_size) × (e.value ≡ v) × (e.state ≡ cached → Stores b v)

  abbrev pub Holds : Stored T → ℕ → Option T → Type 0
  Holds s i v = HoldsEntry (entry_of i s) (stored_at i s) i v

  -- The map stands for `f`.
  pub record Represents (s : Stored T) (f : ℕ → Option T) : Type 0 where
    pub distinct : Distinct s.map.cache
    pub holds : (i : ℕ) → Holds s i (f i)

  pub Represents-ext :
      (s : Stored T) (f g : ℕ → Option T) → ((i : ℕ) → f i ≡ g i) → Represents s f → Represents s g
  Represents-ext s f g same r = record {
    distinct = r.distinct;
    holds = λ i. subst (Holds s i) (same i) (r.holds i);
  }

  put_entry_self :
      (i : ℕ) (e : CacheEntry T) (s : Stored T)
      → i < u32_size
      → (e.state ≡ cached → Stores (stored_at i s) e.value)
      → Holds (put_entry i e s) i e.value
  put_entry_self i e s lt keep =
      subst (λ o. HoldsEntry o (stored_at i s) i e.value) (sym (lookup-insert_self i e s.map.cache))
        (lt, refl, keep)

  put_entry_ne :
      (i j : ℕ) (e : CacheEntry T) (s : Stored T) (v : Option T)
      → j ≢ i
      → Holds s j v
      → Holds (put_entry i e s) j v
  put_entry_ne i j e s v ne h =
      subst (λ o. HoldsEntry o (stored_at j s) j v) (sym (lookup-insert_ne j i e s.map.cache ne)) h

  -- A new entry with the value `v`; a clean one only where storage has `v` already.
  pub put_entry-Represents :
      (i : ℕ) (e : CacheEntry T) (s : Stored T) (f : ℕ → Option T)
      → i < u32_size
      → (e.state ≡ cached → Stores (stored_at i s) e.value)
      → Represents s f
      → Represents (put_entry i e s) (update i e.value f)
  put_entry-Represents i e s f lt keep r = record {
    distinct = insert-Distinct i e s.map.cache r.distinct;
    holds = λ j. elim (ℕ_discrete i j) [
      | yes p ↦
          subst (λ k. Holds (put_entry i e s) k (update i e.value f k)) p
            (subst (Holds (put_entry i e s) i) (sym (update_self i e.value f))
              (put_entry_self i e s lt keep))
      | no p ↦
          subst (Holds (put_entry i e s) j) (sym (update_ne i j e.value f p))
            (put_entry_ne i j e s (f j) (λ q. p (sym q)) (r.holds j))
    ];
  }

  -- The entry that `get_mut_inner` finds or loads has the element, and the map stands for the same.
  pub record Loaded (i : ℕ) (s : Stored T) (f : ℕ → Option T) (e : CacheEntry T) (s' : Stored T)
      : Type 0 where
    pub found : get_mut_inner borsh i s ≡ done (e, s')
    pub present : entry_of i s' ≡ some e
    pub value : e.value ≡ f i
    pub clean : e.state ≡ cached → Stores (stored_at i s') (f i)
    pub represents : Represents s' f

  pub Stores-none : (v : Option T) → Stores none v → v ≡ none
  Stores-none none h = refl
  Stores-none (some v) h = absurd h

  Stores-some :
      (b : Bytes) (v : Option T)
      → Stores (some b) v
      → (x : T) × (v ≡ some x) × (borsh.deserialize b ≡ some x)
  Stores-some b none h = absurd h
  Stores-some b (some x) h = (x, refl, h)

  read_element_lem :
      (i : ℕ) (s : Stored T) (v : Option T)
      → Stores (stored_at i s) v
      → read_element borsh i s ≡ done (v, s)
  unfolding read_element
  read_element_lem i s v h = elim (Option-cases (stored_at i s)) [
    | inl e ↦ let empty = Stores-none v (subst (λ o. Stores o v) e h) in ground arith
    | inr (b, e) ↦
        let (x, is_x, reads) = Stores-some b v (subst (λ o. Stores o v) e h) in ground arith
  ]

  pub Holds-some :
      (i : ℕ) (s : Stored T) (v : Option T) (e : CacheEntry T)
      → entry_of i s ≡ some e
      → Holds s i v
      → (i < u32_size) × (e.value ≡ v) × (e.state ≡ cached → Stores (stored_at i s) v)
  Holds-some i s v e h k = subst (λ o. HoldsEntry o (stored_at i s) i v) h k

  pub Holds-none :
      (i : ℕ) (s : Stored T) (v : Option T)
      → entry_of i s ≡ none
      → i < u32_size
      → Holds s i v
      → Stores (stored_at i s) v
  Holds-none i s v h lt k = subst (λ o. HoldsEntry o (stored_at i s) i v) h k lt

  get_mut_inner_hit :
      (i : ℕ) (s : Stored T) (e : CacheEntry T)
      → entry_of i s ≡ some e
      → get_mut_inner borsh i s ≡ done (e, s)
  unfolding get_mut_inner
  get_mut_inner_hit i s e h = ground arith

  get_mut_inner_miss :
      (i : ℕ) (s : Stored T) (v : Option T)
      → entry_of i s ≡ none
      → read_element borsh i s ≡ done (v, s)
      → get_mut_inner borsh i s ≡ done (new_cached v, put_entry i (new_cached v) s)
  unfolding get_mut_inner
  get_mut_inner_miss i s v h k = ground arith

  pub get_mut_inner_lem :
      (i : ℕ) (s : Stored T) (f : ℕ → Option T)
      → i < u32_size
      → Represents s f
      → (e : CacheEntry T) × (s' : Stored T) × Loaded i s f e s'
  unfolding new_cached
  get_mut_inner_lem i s f lt r = elim (Option-cases (entry_of i s)) [
    | inl absent ↦
        let reads = Holds-none i s (f i) absent lt (r.holds i) in
        (
          new_cached (f i),
          put_entry i (new_cached (f i)) s,
          record {
            found = get_mut_inner_miss i s (f i) absent (read_element_lem i s (f i) reads);
            present = lookup-insert_self i (new_cached (f i)) s.map.cache;
            value = refl;
            clean = λ _. reads;
            represents =
                Represents-ext (put_entry i (new_cached (f i)) s) (update i (f i) f) f
                  (update_same i f)
                  (put_entry-Represents i (new_cached (f i)) s f lt (λ _. reads) r);
          },
        )
    | inr (e, h) ↦
        let (_, same, clean) = Holds-some i s (f i) e h (r.holds i) in
        (
          e,
          s,
          record {
            found = get_mut_inner_hit i s e h;
            present = h;
            value = same;
            clean = clean;
            represents = r;
          },
        )
  ]

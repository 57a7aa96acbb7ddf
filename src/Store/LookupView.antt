-- ===== src/Store/LookupView.antt =====
-- The values of a cached map, and how its operations change them
-- (near-sdk/src/store/lookup_map/mod.rs).
use near_runtime_rs.Base.{
  ◌≡◌, Option, none, some, Outcome, done, ite, arith, refl, sym, ◌∙◌, Option-cases, inl, inr, ap,
}
use near_runtime_rs.Base.Dict.{
  Key, is_some, lookup-insert_self, lookup-insert_ne, Distinct, insert-Distinct,
}
use near_runtime_rs.Store.Trie.{Bytes, Borsh}
use near_runtime_rs.Store.CacheEntry.{
  CacheEntry, cached, new_cached, new_modified, set_value, replace,
}
use near_runtime_rs.Store.IndexMap.{Panic}
use near_runtime_rs.Store.LookupMap.{
  ToKey, Stored, entry_of, put_entry, load_element, get_mut_inner, get, set, replace_at,
  insert_value, remove, contains_key,
}

module _ {K V : Type 0} ⦃key : Key K⦄ (borsh : Borsh V) (to_key : ToKey K) where
  -- The value of a key: that of its entry, and without one what storage has.
  abbrev pub decoded : Option Bytes → Option V
  decoded none = none
  decoded (some b) = borsh.deserialize b

  abbrev pub stored : K → Stored K V → Option V
  stored k s = decoded (s.trie (to_key s.map.prefix k))

  abbrev pub value_in : Option (CacheEntry V) → Option V → Option V
  value_in none v = v
  value_in (some e) v = e.value

  abbrev pub view : Stored K V → K → Option V
  view s k = value_in (entry_of k s) (stored k s)

  abbrev pub update : K → Option V → (K → Option V) → K → Option V
  update k v f j = ite (key.dec_eq j k) v (f j)

  -- What storage has under the keys of the map can be read, and an entry that is not marked as
  -- modified agrees with it.
  pub record IsCache (s : Stored K V) : Type 0 where
    pub readable :
        (k : K) (b : Bytes)
        → s.trie (to_key s.map.prefix k) ≡ some b
        → (x : V) × (borsh.deserialize b ≡ some x)
    pub clean :
        (k : K) (e : CacheEntry V) → entry_of k s ≡ some e → e.state ≡ cached → stored k s ≡ e.value
    pub distinct : Distinct s.map.cache

  -- A call ends with a result in a state that has the given values.
  pub record Ends {A : Type 0} (o : Outcome Panic (A × Stored K V)) (a : A) (f : K → Option V)
      : Type 0 where
    pub state : Stored K V
    pub returns : o ≡ done (a, state)
    pub values : (j : K) → view state j ≡ f j
    pub valid : IsCache state

  pub put_entry-view :
      (k : K) (e : CacheEntry V) (s : Stored K V) (j : K)
      → view (put_entry k e s) j ≡ update k e.value (view s) j
  put_entry-view k e s j = elim (key.dec_eq j k) [
    | yes p ↦ ground (arith, p, lookup-insert_self k e s.map.cache)
    | no n ↦ ground (arith, n, lookup-insert_ne j k e s.map.cache n)
  ]

  entered :
      (k : K) (e : CacheEntry V) (s : Stored K V) (j : K) (d : CacheEntry V)
      → j ≡ k
      → entry_of j (put_entry k e s) ≡ some d
      → e ≡ d
  entered k e s j d p found = ground (arith, p, found, lookup-insert_self k e s.map.cache)

  update_same :
      (k : K) (v : Option V) (s : Stored K V) (j : K)
      → view s k ≡ v
      → update k v (view s) j ≡ view s j
  update_same k v s j e = elim (key.dec_eq j k) [
    | yes p ↦ let back = sym (ap (view s) p ∙ e) in ground (arith, p, back)
    | no n ↦ ground (arith, n)
  ]

  pub put_entry-IsCache :
      (k : K) (e : CacheEntry V) (s : Stored K V)
      → (e.state ≡ cached → stored k s ≡ e.value)
      → IsCache s
      → IsCache (put_entry k e s)
  put_entry-IsCache k e s agree v = record {
    readable = v.readable;
    clean = λ j d found st. elim (key.dec_eq j k) [
      | yes p ↦
          let same : e ≡ d = entered k e s j d p found in
          ap (λ i. stored i s) p ∙ agree (ap (λ x. x.state) same ∙ st) ∙ ap (λ x. x.value) same
      | no n ↦ v.clean j d (sym (lookup-insert_ne j k e s.map.cache n) ∙ found) st
    ];
    distinct = insert-Distinct k e s.map.cache v.distinct;
  }

  load_element_lem :
      (k : K) (s : Stored K V) → IsCache s → load_element borsh to_key k s ≡ done (stored k s, s)
  unfolding load_element
  load_element_lem k s v = elim (Option-cases (s.trie (to_key s.map.prefix k))) [
    | inl e ↦ ground (arith, e)
    | inr (b, e) ↦ let (x, r) = v.readable k b e in ground (arith, e, r)
  ]

  pub record Entered (k : K) (s : Stored K V) (e : CacheEntry V) (s' : Stored K V) : Type 0 where
    pub found : get_mut_inner borsh to_key k s ≡ done (e, s')
    pub value : e.value ≡ view s k
    pub agree : e.state ≡ cached → stored k s' ≡ e.value
    pub same : (j : K) → view s' j ≡ view s j
    pub valid : IsCache s'

  pub get_mut_inner_lem :
      (k : K) (s : Stored K V)
      → IsCache s
      → (e : CacheEntry V) × (s' : Stored K V) × Entered k s e s'
  unfolding get_mut_inner new_cached
  get_mut_inner_lem k s v = elim (Option-cases (entry_of k s)) [
    | inl absent ↦ (
      new_cached (stored k s),
      put_entry k (new_cached (stored k s)) s,
      record {
        found = ground (arith, absent, load_element_lem k s v);
        value = ground (arith, absent);
        agree = λ _. refl;
        same = λ j.
            put_entry-view k (new_cached (stored k s)) s j
            ∙ update_same k (stored k s) s j (ground (arith, absent));
        valid = put_entry-IsCache k (new_cached (stored k s)) s (λ _. refl) v;
      },
    )
    | inr (e, h) ↦ (
      e,
      s,
      record {
        found = ground (arith, h);
        value = ground (arith, h);
        agree = λ st. v.clean k e h st;
        same = λ j. refl;
        valid = v;
      },
    )
  ]

  pub get_lem :
      (k : K) (s : Stored K V) → IsCache s → Ends (get borsh to_key k s) (view s k) (view s)
  unfolding get
  get_lem k s v =
      let (e, s', c) = get_mut_inner_lem k s v in
      record {
        state = s';
        returns = ground (arith, c.found, c.value);
        values = c.same;
        valid = c.valid;
      }

  -- A replaced value is not marked only where there was none and is none.
  pub replace_agree :
      (e : CacheEntry V) (value stored : Option V)
      → (e.state ≡ cached → stored ≡ e.value)
      → (replace value e).0.state ≡ cached
      → stored ≡ value
  unfolding replace
  replace_agree e value stored agree st = ground (arith, agree, st)

  replace_at_lem :
      (k : K) (value : Option V) (s : Stored K V)
      → IsCache s
      → Ends (replace_at borsh to_key k value s) (view s k) (update k value (view s))
  unfolding replace_at replace
  replace_at_lem k value s v =
      let (e, s', c) = get_mut_inner_lem k s v in
      record {
        state = put_entry k (replace value e).0 s';
        returns = ground (arith, c.found, c.value);
        values = λ j.
            put_entry-view k (replace value e).0 s' j ∙ (let sj = c.same j in ground (arith, sj));
        valid =
            put_entry-IsCache k (replace value e).0 s' (replace_agree e value (stored k s') c.agree)
              c.valid;
      }

  -- An insertion returns the value of the key and gives it the new one.
  pub insert_value_lem :
      (k : K) (x : V) (s : Stored K V)
      → IsCache s
      → Ends (insert_value borsh to_key k x s) (view s k) (update k (some x) (view s))
  unfolding insert_value
  insert_value_lem k x s v = replace_at_lem k (some x) s v

  -- A removal returns the value of the key, which has none then.
  pub remove_lem :
      (k : K) (s : Stored K V)
      → IsCache s
      → Ends (remove borsh to_key k s) (view s k) (update k none (view s))
  unfolding remove
  remove_lem k s v = replace_at_lem k none s v

  pub set_lem :
      (k : K) (value : Option V) (s : Stored K V)
      → IsCache s
      → Ends (set k value s) tt (update k value (view s))
  unfolding set new_modified set_value
  set_lem k value s v = elim (Option-cases (entry_of k s)) [
    | inl h ↦ record {
      state = put_entry k (new_modified value) s;
      returns = ground (arith, h);
      values = put_entry-view k (new_modified value) s;
      valid = put_entry-IsCache k (new_modified value) s (λ st. absurd (ground (arith, st))) v;
    }
    | inr (e, h) ↦ record {
      state = put_entry k (set_value value e) s;
      returns = ground (arith, h);
      values = put_entry-view k (set_value value e) s;
      valid = put_entry-IsCache k (set_value value e) s (λ st. absurd (ground (arith, st))) v;
    }
  ]

  -- The membership test answers whether the key has a value and changes no value.
  pub contains_key_lem :
      (k : K) (s : Stored K V)
      → IsCache s
      → Ends (contains_key borsh to_key k s) (is_some (view s k)) (view s)
  unfolding contains_key new_cached
  contains_key_lem k s v = elim (Option-cases (entry_of k s)) [
    | inr (e, h) ↦ record { state = s; returns = ground (arith, h); values = λ j. refl; valid = v }
    | inl h ↦ elim (Option-cases (s.trie (to_key s.map.prefix k))) [
      | inr (b, e) ↦
          let (x, r) = v.readable k b e in
          record { state = s; returns = ground (arith, h, e, r); values = λ j. refl; valid = v }
      | inl e ↦ record {
        state = put_entry k (new_cached none) s;
        returns = ground (arith, h, e);
        values = λ j.
            put_entry-view k (new_cached none) s j ∙ update_same k none s j (ground (arith, h, e));
        valid = put_entry-IsCache k (new_cached none) s (λ st. ground (arith, e)) v;
      }
    ]
  ]

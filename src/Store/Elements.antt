-- ===== src/Store/Elements.antt =====
-- The operations of the cached map on what it stands for (near-sdk/src/store/index_map.rs).
use near_runtime_rs.Base.{
  ℕ, ◌<◌, ◌≡◌, ◌≢◌, Option, none, some, Outcome, done, u32_size, ◌==◌, if◌then◌else◌, arith, subst,
  sym, ◌∙◌, Option-cases, inl, inr, ℕ_discrete,
}
use near_runtime_rs.Base.Dict.{nat_key}
use near_runtime_rs.Store.Trie.{Borsh}
use near_runtime_rs.Store.CacheEntry.{
  CacheEntry, cached, modified, new_modified, set_value, replace,
}
use near_runtime_rs.Store.IndexMap.{
  Stored, Panic, entry_of, put_entry, set, get, get_mut, swap, replace_at,
}
use near_runtime_rs.Store.Represents.{
  update, Stores, stored_at, Represents, Represents-ext, put_entry-Represents, Loaded,
  get_mut_inner_lem,
}

abbrev pub map_option : {T : Type 0} → (T → T) → Option T → Option T
map_option g (some x) = some (g x)
map_option g none = none

module _ {T : Type 0} (borsh : Borsh T) where
  -- The call returns `a`, and the map stands for `g` then.
  abbrev pub Returns : {A : Type 0} → Outcome Panic (A × Stored T) → A → (ℕ → Option T) → Type 0
  Returns o a g = (s' : Stored T) × (o ≡ done (a, s')) × Represents borsh s' g

  module _ (i : ℕ) (s : Stored T) (f : ℕ → Option T) (lt : i < u32_size)
      (r : Represents borsh s f) where
    pub get_lem : Returns (get borsh i s) (f i) f
    unfolding get
    get_lem =
        let (e, s', l) = get_mut_inner_lem borsh i s f lt r in
        (s', ground (arith, l.found, l.value), l.represents)

    replace_clean :
        (v : Option T) (e : CacheEntry T) (s' : Stored T)
        → Loaded borsh i s f e s'
        → (replace v e).0.state ≡ cached
        → Stores borsh (stored_at borsh i s') (replace v e).0.value
    unfolding replace
    replace_clean (some x) e s' l c = cc
    replace_clean none e s' l c = elim (Option-cases e.value) [
      | inl empty ↦
          let was_cached : e.state ≡ cached = ground arith in
          subst (Stores borsh (stored_at borsh i s')) (sym l.value ∙ empty) (l.clean was_cached)
      | inr (x, full) ↦ let impossible : modified ≡ cached = ground arith in cc
    ]

    pub replace_at_lem : (v : Option T) → Returns (replace_at borsh i v s) (f i) (update i v f)
    unfolding replace_at replace
    replace_at_lem v =
        let (e, s', l) = get_mut_inner_lem borsh i s f lt r in
        (
          put_entry i (replace v e).0 s',
          ground (arith, l.found, l.value),
          put_entry-Represents borsh i (replace v e).0 s' f lt (replace_clean v e s' l)
              l.represents,
        )

    pub get_mut_lem :
        (g : T → T) → Returns (get_mut borsh g i s) (f i) (update i (map_option g (f i)) f)
    unfolding get_mut set_value
    get_mut_lem g =
        let (e, s', l) = get_mut_inner_lem borsh i s f lt r in
        (
          put_entry i (set_value (map_option g (f i)) e) s',
          ground (arith, l.found, l.value),
          put_entry-Represents borsh i (set_value (map_option g (f i)) e) s' f lt (λ c. cc)
              l.represents,
        )

    pub set_lem : (v : Option T) → Returns (set i v s) tt (update i v f)
    unfolding set set_value new_modified
    set_lem v = elim (Option-cases (entry_of i s)) [
      | inl absent ↦ (
        put_entry i (new_modified v) s,
        ground arith,
        put_entry-Represents borsh i (new_modified v) s f lt (λ c. cc) r,
      )
      | inr (e, h) ↦ (
        put_entry i (set_value v e) s,
        ground arith,
        put_entry-Represents borsh i (set_value v e) s f lt (λ c. cc) r,
      )
    ]

  -- The elements at two indices exchanged.
  abbrev pub exchange : ℕ → ℕ → (ℕ → Option T) → ℕ → Option T
  exchange a b f j = if a == j then f b else (if b == j then f a else f j)

  exchange_updates :
      (a b : ℕ) (f : ℕ → Option T) (j : ℕ)
      → a ≢ b
      → update a (update a none f b) (update b (f a) (update a none f)) j ≡ exchange a b f j
  exchange_updates a b f j ne = ground arith

  exchange_same : (a b : ℕ) (f : ℕ → Option T) → a ≡ b → (j : ℕ) → f j ≡ exchange a b f j
  exchange_same a b f p j = ground arith

  -- `swap` exchanges what two indices hold, and changes nothing else.
  pub swap_lem :
      (a b : ℕ) (s : Stored T) (f : ℕ → Option T)
      → a < u32_size
      → b < u32_size
      → Represents borsh s f
      → Returns (swap borsh a b s) tt (exchange a b f)
  unfolding swap
  swap_lem a b s f la lb r = elim (ℕ_discrete a b) [
    | yes p ↦ (s, ground arith, Represents-ext borsh s f (exchange a b f) (exchange_same a b f p) r)
    | no p ↦
        let (s1, e1, r1) = replace_at_lem a s f la r none in
        let (s2, e2, r2) = replace_at_lem b s1 (update a none f) lb r1 (f a) in
        let g = update b (f a) (update a none f) in
        let (s3, e3, r3) = replace_at_lem a s2 g la r2 (update a none f b) in
        (
          s3,
          ground arith,
          Represents-ext borsh s3 (update a (update a none f b) g) (exchange a b f)
              (λ j. exchange_updates a b f j p) r3,
        )
  ]

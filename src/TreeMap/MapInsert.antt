-- ===== src/TreeMap/MapInsert.antt =====
-- What the map holds, and how an insertion changes it (near-sdk/src/store/tree_map/mod.rs).
use near_runtime_rs.Base.{
  ◌+◌, ◌<◌, ◌≡◌, true, false, if◌then◌else◌, ◌||◌, Option, none, some, List, [], done, arith, refl,
  sym, ap, ◌∙◌, u32_size, length, Option-cases, Bool-cases, inl, inr,
}
use near_runtime_rs.Base.Dict.{Key, is_some}
use near_runtime_rs.FreeList.Defs.{FreeListIndex}
use near_runtime_rs.Store.Trie.{Borsh}
use near_runtime_rs.Store.CacheEntry.{CacheEntry, set_value, replace}
use near_runtime_rs.Store.LookupMap.{ToKey, Stored, put_entry}
use near_runtime_rs.Store.LookupView.{
  IsCache, view, update, Entered, get_mut_inner_lem, put_entry-view, put_entry-IsCache, get_lem,
}
use near_runtime_rs.TreeMap.Ord.{Ord}
use near_runtime_rs.TreeMap.Shape.{Shape, keys}
use near_runtime_rs.TreeMap.SortedKeys.{has_key, insert_sorted, has_key-insert_sorted}
use near_runtime_rs.TreeMap.Count.{Full-count}
use near_runtime_rs.TreeMap.InsertKeys.{IsTree, internal_insert_lem, length-keys}
use near_runtime_rs.TreeMap.Map.{TreeMap, insert, insert_at_entry, len, get_key_value}
use near_runtime_rs.TreeMap.Lookup.{equal_key_lem}

module _ {K V : Type 0} ⦃key : Key K⦄ ⦃o : Ord K⦄ (borsh : Borsh V) (to_key : ToKey K) where
  -- The keys of the tree are those with a value.
  pub record IsMap (m : TreeMap K V) (s : Shape K) (free : List FreeListIndex) : Type 0 where
    pub cache : IsCache borsh to_key m.values
    pub tree : IsTree m.tree s free
    pub same : (k : K) → is_some (view borsh to_key m.values k) ≡ has_key k (keys s)

  -- The sorted list with a key that may be in it.
  abbrev pub add_key : K → List K → List K
  add_key k ks = if has_key k ks then ks else insert_sorted k ks

  -- An insertion returned the old value; the map has the new one and the keys with the new one.
  pub record Added (k : K) (x : V) (m : TreeMap K V) (s : Shape K) : Type 0 where
    pub after : TreeMap K V
    pub shape : Shape K
    pub free : List FreeListIndex
    pub returns : insert borsh to_key k x m ≡ done (view borsh to_key m.values k, after)
    pub valid : IsMap after shape free
    pub values :
        (j : K)
        → view borsh to_key after.values j
          ≡ update borsh to_key k (some x) (view borsh to_key m.values) j
    pub ordered : keys shape ≡ add_key k (keys s)

  eq_key_update :
      (k j : K) (x : V) (f : K → Option V)
      → is_some (update borsh to_key k (some x) f j) ≡ (o.eq_key j k || is_some (f j))
  eq_key_update k j x f = elim (key.dec_eq j k) [
    | yes p ↦ ground (arith, p, o.eq_refl k)
    | no n ↦ ground (arith, n, o.eq_sound j k)
  ]

  already_there :
      (k j : K) (ks : List K) → has_key k ks ≡ true → (o.eq_key j k || has_key j ks) ≡ has_key j ks
  already_there k j ks h = elim (Bool-cases (o.eq_key j k)) [
    | inl t ↦
        let has : has_key j ks ≡ true = ap (λ q. has_key q ks) (o.eq_sound j k t) ∙ h in
        ground (arith, t, has)
    | inr f ↦ ground (arith, f)
  ]

  module _ (k : K) (x : V) (m : TreeMap K V) (s : Shape K) (free : List FreeListIndex)
      (v : IsMap m s free) (e : CacheEntry V) (s1 : Stored K V)
      (c : Entered borsh to_key k m.values e s1) where
    written :
        (e' : CacheEntry V)
        → e'.value ≡ some x
        → (j : K)
        → view borsh to_key (put_entry k e' s1) j
          ≡ update borsh to_key k (some x) (view borsh to_key m.values) j
    written e' is j =
        put_entry-view borsh to_key k e' s1 j ∙ (let sj = c.same j in ground (arith, sj, is))

    written_keys :
        (e' : CacheEntry V)
        → e'.value ≡ some x
        → (j : K)
        → is_some (view borsh to_key (put_entry k e' s1) j) ≡ (o.eq_key j k || has_key j (keys s))
    written_keys e' is j =
        ap is_some (written e' is j)
        ∙ eq_key_update k j x (view borsh to_key m.values)
        ∙ ap (λ b. o.eq_key j k || b) (v.same j)

    replaced : (old : V) → view borsh to_key m.values k ≡ some old → Added k x m s
    unfolding insert insert_at_entry set_value
    replaced old h =
        let has : has_key k (keys s) ≡ true = sym (v.same k) ∙ ap is_some h in
        record {
          after = record { values = put_entry k (set_value (some x) e) s1; tree = m.tree };
          shape = s;
          free = free;
          returns = ground (arith, c.found, c.value, h);
          valid = record {
            cache =
                put_entry-IsCache borsh to_key k (set_value (some x) e) s1
                  (λ st. absurd (ground (arith, st))) c.valid;
            tree = v.tree;
            same = λ j. written_keys (set_value (some x) e) refl j ∙ already_there k j (keys s) has;
          };
          values = written (set_value (some x) e) refl;
          ordered = ground (arith, has);
        }

    added :
        view borsh to_key m.values k ≡ none
        → (free ≡ [] → length m.tree.nodes.elements + 1 < u32_size)
        → Added k x m s
    unfolding insert insert_at_entry replace
    added h room =
        let has : has_key k (keys s) ≡ false = sym (v.same k) ∙ ap is_some h in
        let (t', s', free', run, wf, order) = internal_insert_lem k m.tree s free v.tree has room in
        record {
          after = record { values = put_entry k (replace (some x) e).0 s1; tree = t' };
          shape = s';
          free = free';
          returns = ground (arith, c.found, c.value, h, run);
          valid = record {
            cache =
                put_entry-IsCache borsh to_key k (replace (some x) e).0 s1
                  (λ st. absurd (ground (arith, st))) c.valid;
            tree = wf;
            same = λ j.
                written_keys (replace (some x) e).0 refl j
                ∙ sym (has_key-insert_sorted k j (keys s))
                ∙ ap (has_key j) (sym order);
          };
          values = written (replace (some x) e).0 refl;
          ordered = ground (arith, has, order);
        }

  -- An insertion into a valid map returns, if the key has a value, or a slot is free, or the new
  -- length fits a `u32`. It returns the old value of the key, which then has the new value. No other
  -- key is changed. The map is valid then, and the keys of its tree are the old sorted list with the
  -- key where that belongs.
  pub map_insert_lem :
      (k : K) (x : V) (m : TreeMap K V) (s : Shape K) (free : List FreeListIndex)
      → IsMap m s free
      → (view borsh to_key m.values k ≡ none
          → free ≡ []
          → length m.tree.nodes.elements + 1 < u32_size)
      → Added k x m s
  map_insert_lem k x m s free v room =
      let (e, s1, c) = get_mut_inner_lem borsh to_key k m.values v.cache in
      elim (Option-cases (view borsh to_key m.values k)) [
        | inl h ↦ added k x m s free v e s1 c h (room h)
        | inr (old, h) ↦ replaced k x m s free v e s1 c old h
      ]

  -- The length of a valid map is the number of keys in its tree.
  pub map_len_lem :
      (m : TreeMap K V) (s : Shape K) (free : List FreeListIndex)
      → IsMap m s free
      → len m ≡ length (keys s)
  unfolding len
  map_len_lem m s free v =
      Full-count m.tree.nodes s free v.tree.represents v.tree.unique v.tree.full v.tree.slots
      ∙ sym (length-keys s)

  -- In a valid map the pair of a key is the key and its value, where it has one, and the map is
  -- valid after the call, with the same values.
  pub get_key_value_lem :
      (k : K) (m : TreeMap K V) (s : Shape K) (free : List FreeListIndex)
      → IsMap m s free
      → (m' : TreeMap K V) × (get_key_value borsh to_key k m
          ≡ done (elim (view borsh to_key m.values k) [ none ↦ none | some x ↦ some (k, x) ], m'))
        × IsMap m' s free
        × ((j : K) → view borsh to_key m'.values j ≡ view borsh to_key m.values j)
  unfolding get_key_value
  get_key_value_lem k m s free v =
      let g = get_lem borsh to_key k m.values v.cache in
      let eq = equal_key_lem k m.tree s free v.tree in
      let sk = v.same k in
      (
        record { values = g.state; tree = m.tree },
        ground (arith, g.returns, eq, sk),
        record { cache = g.valid; tree = v.tree; same = λ j. ap is_some (g.values j) ∙ v.same j },
        g.values,
      )

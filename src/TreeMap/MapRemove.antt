-- ===== src/TreeMap/MapRemove.antt =====
-- How a removal changes the map (near-sdk/src/store/tree_map/mod.rs, remove_entry).
use near_runtime_rs.Base.{
  ◌≡◌, Bool, true, false, if◌then◌else◌, Option, none, some, List, [], ◌∷◌, done, arith, sym, ap,
  ◌∙◌, Option-cases, Bool-cases, inl, inr,
}
use near_runtime_rs.Base.Dict.{Key, is_some}
use near_runtime_rs.FreeList.Defs.{FreeListIndex}
use near_runtime_rs.Store.Trie.{Borsh}
use near_runtime_rs.Store.LookupMap.{ToKey}
use near_runtime_rs.Store.LookupView.{view, update, remove_lem}
use near_runtime_rs.TreeMap.Ord.{Ord}
use near_runtime_rs.TreeMap.Shape.{Shape, keys}
use near_runtime_rs.TreeMap.SortedKeys.{Sorted, has_key, erase}
use near_runtime_rs.TreeMap.Lookup.{has_key_above}
use near_runtime_rs.TreeMap.RemoveKeys.{do_remove_lem, erase_absent}
use near_runtime_rs.TreeMap.Map.{TreeMap, remove_entry}
use near_runtime_rs.TreeMap.MapInsert.{IsMap}

module _ {K V : Type 0} ⦃key : Key K⦄ ⦃o : Ord K⦄ (borsh : Borsh V) (to_key : ToKey K) where
  -- A removal returned the key with its value; the map lacks it, and the keys too.
  pub record Dropped (k : K) (m : TreeMap K V) (s : Shape K) : Type 0 where
    pub after : TreeMap K V
    pub shape : Shape K
    pub free : List FreeListIndex
    pub returns :
        remove_entry borsh to_key k m
        ≡ done (elim (view borsh to_key m.values k) [ none ↦ none | some x ↦ some (k, x) ], after)
    pub valid : IsMap borsh to_key after shape free
    pub values :
        (j : K)
        → view borsh to_key after.values j
          ≡ update borsh to_key k none (view borsh to_key m.values) j
    pub ordered : keys shape ≡ erase k (keys s)

  has_key-erase :
      (j q : K) (xs : List K)
      → Sorted xs
      → has_key j (erase q xs) ≡ (if o.eq_key j q then false else has_key j xs)
  unfolding has_key erase
  has_key-erase j q [] s = ground arith
  has_key-erase j q (x ∷ xs) s = elim (Bool-cases (o.eq_key q x)) [
    | inl t ↦ elim (Bool-cases (o.eq_key j q)) [
      | inl e ↦
          let jx = o.eq_sound j q e ∙ o.eq_sound q x t in
          let no = has_key_above x x xs s.0 (o.lt_irrefl x) in
          let nj = ap (λ a. has_key a xs) jx ∙ no in ground (arith, t, e, nj)
      | inr n ↦
          let nx : o.eq_key j x ≡ false = ap (o.eq_key j) (sym (o.eq_sound q x t)) ∙ n in
          ground (arith, t, n, nx)
    ]
    | inr f ↦ elim (Bool-cases (o.eq_key j q)) [
      | inl e ↦
          let nx : o.eq_key j x ≡ false = ap (λ a. o.eq_key a x) (o.eq_sound j q e) ∙ f in
          ground (arith, f, e, nx, has_key-erase j q xs s.1)
      | inr n ↦ ground (arith, f, n, has_key-erase j q xs s.1)
    ]
  ]

  gone_keys :
      (k j : K) (f : K → Option V) (b : Bool)
      → is_some (f j) ≡ b
      → is_some (update borsh to_key k none f j) ≡ (if o.eq_key j k then false else b)
  gone_keys k j f b e = elim (key.dec_eq j k) [
    | yes p ↦
        let t : o.eq_key j k ≡ true = ap (λ a. o.eq_key a k) p ∙ o.eq_refl k in ground (arith, p, t)
    | no n ↦ ground (arith, n, o.eq_sound j k, e)
  ]

  -- A removal from a valid map returns the key and its value, where it has one. Then the key has no
  -- value, no other key is changed, the map is valid, and the keys of its tree are the old sorted
  -- list without the key.
  pub map_remove_lem :
      (k : K) (m : TreeMap K V) (s : Shape K) (free : List FreeListIndex)
      → IsMap borsh to_key m s free
      → Dropped k m s
  unfolding remove_entry
  map_remove_lem k m s free v =
      let g = remove_lem borsh to_key k m.values v.cache in
      let (t', s', free', run, wf, order) = do_remove_lem k m.tree s free v.tree in
      let kept : (j : K) → is_some (view borsh to_key g.state j) ≡ has_key j (erase k (keys s)) =
        λ j.
          ap is_some (g.values j)
          ∙ gone_keys k j (view borsh to_key m.values) (has_key j (keys s)) (v.same j)
          ∙ sym (has_key-erase j k (keys s) v.tree.sorted) in
      elim (Option-cases (view borsh to_key m.values k)) [
        | inr (x, h) ↦
            let has : has_key k (keys s) ≡ true = sym (v.same k) ∙ ap is_some h in
            record {
              after = record { values = g.state; tree = t' };
              shape = s';
              free = free';
              returns = ground (arith, g.returns, run, h, has);
              valid = record {
                cache = g.valid;
                tree = wf;
                same = λ j. kept j ∙ ap (has_key j) (sym order);
              };
              values = g.values;
              ordered = order;
            }
        | inl h ↦
            let has : has_key k (keys s) ≡ false = sym (v.same k) ∙ ap is_some h in
            let none_gone = erase_absent k (keys s) has in
            record {
              after = record { values = g.state; tree = m.tree };
              shape = s;
              free = free;
              returns = ground (arith, g.returns, h);
              valid = record {
                cache = g.valid;
                tree = v.tree;
                same = λ j. kept j ∙ ap (has_key j) none_gone;
              };
              values = g.values;
              ordered = sym none_gone;
            }
      ]

-- ===== src/Store/Bounds.antt =====
-- The vector out of bounds, cleared, and flushed (near-sdk/src/store/vec/mod.rs).
use near_runtime_rs.Base.{
  ℕ, zero, suc, ◌+◌, ◌≤◌, ◌≡◌, Option, none, some, List, [], done, panic, u32_size, arith, refl,
  length, get_elem?, get_elem?-none, ltb, leb, ◌&&◌, if◌then◌else◌, ◌-◌, ◌⊎◌, inl, inr, ◌↔◌, dec_lt,
  ℕ_discrete, get_elem?-some,
}
use near_runtime_rs.Store.Trie.{Borsh, Bytes}
use near_runtime_rs.Store.IndexMap.{IndexMap, Stored, Panic, index_out_of_bounds}
use near_runtime_rs.Store.IndexMap
use near_runtime_rs.Store.Represents.{Represents, Represents-ext, update}
use near_runtime_rs.Store.Elements.{set_lem, get_mut_lem}
use near_runtime_rs.Store.Reload.{flush_then_reload}
use near_runtime_rs.Store.Vector.{Vector}
use near_runtime_rs.Store.Vector
use near_runtime_rs.Store.VectorList.{
  IsVector, Gives, set_elem, replace_elem, get_elem_lem, pop_elem,
}
use near_runtime_rs.Store.SwapRemove.{swap_elems, swap_remove_elem}

module _ {T : Type 0} (borsh : Borsh T) where
  module _ (v : Vector T) (xs : List T) (r : IsVector borsh v xs) where
    -- In bounds no operation panics, and no read comes back empty.
    set_in_bounds : (i : ℕ) (x : T) → Vector.set i x v ≡ panic index_out_of_bounds → length xs ≤ i
    set_in_bounds i x e = elim (dec_lt i (length xs)) [
      | yes h ↦ let (_, d, _) = set_elem borsh v xs r i x h in cc
      | no h ↦ omega arith
    ]

    replace_in_bounds :
        (i : ℕ) (x : T) → Vector.replace borsh i x v ≡ panic index_out_of_bounds → length xs ≤ i
    replace_in_bounds i x e = elim (dec_lt i (length xs)) [
      | yes h ↦
          let (y, at) = get_elem?-some xs i h in
          let (_, d, _) = replace_elem borsh v xs r i x y at in cc
      | no h ↦ omega arith
    ]

    swap_in_bounds :
        (i j : ℕ)
        → Vector.swap borsh i j v ≡ panic index_out_of_bounds
        → (length xs ≤ i) ⊎ (length xs ≤ j)
    swap_in_bounds i j e = elim (dec_lt i (length xs)) [
      | no h ↦ inl (omega arith)
      | yes h ↦ elim (dec_lt j (length xs)) [
        | no k ↦ inr (omega arith)
        | yes k ↦
            let (x, at_i) = get_elem?-some xs i h in
            let (y, at_j) = get_elem?-some xs j k in
            let (_, d, _) = swap_elems borsh v xs r i j x y at_i at_j in cc
      ]
    ]

    swap_remove_in_bounds :
        (i : ℕ) → Vector.swap_remove borsh i v ≡ panic index_out_of_bounds → length xs ≤ i
    swap_remove_in_bounds i e = elim (dec_lt i (length xs)) [
      | no h ↦ omega arith
      | yes h ↦
          let n = length xs - 1 in
          let size : length xs ≡ suc n = omega arith in
          let (x, at_i) = get_elem?-some xs i h in
          let (y, at_n) = get_elem?-some xs n (omega arith) in
          let (_, d, _) = swap_remove_elem borsh v xs r n i x y size at_i at_n in cc
    ]

    get_in_bounds : (i : ℕ) → Vector.get borsh i v ≡ done (none, v) → length xs ≤ i
    get_in_bounds i e = elim (dec_lt i (length xs)) [
      | no h ↦ omega arith
      | yes h ↦
          let (x, at) = get_elem?-some xs i h in
          let (_, d, _) = get_elem_lem borsh v xs r i in absurd (ground (arith, at, d, e))
    ]

    get_mut_in_bounds :
        (f : T → T) (i : ℕ) → Vector.get_mut borsh f i v ≡ done (none, v) → length xs ≤ i
    unfolding Vector.get_mut
    get_mut_in_bounds f i e = elim (dec_lt i (length xs)) [
      | no h ↦ omega arith
      | yes h ↦
          let (x, at) = get_elem?-some xs i h in
          let (_, d, _) =
            get_mut_lem borsh i v.values (get_elem? xs) (omega (arith, r.bound)) r.elements f in
          absurd (ground (arith, at, d, e, r.len))
    ]

    pop_in_bounds : Vector.pop borsh v ≡ done (none, v) → length xs ≡ 0
    pop_in_bounds e = elim (ℕ_discrete (length xs) 0) [
      | yes h ↦ h
      | no h ↦
          let n = length xs - 1 in
          let size : length xs ≡ suc n = omega arith in
          let (x, at) = get_elem?-some xs n (omega arith) in
          let (_, d, _) = pop_elem borsh v xs r n size in absurd (ground (arith, at, d, e))
    ]

    pub out_of_bounds :
        (f : T → T) (i j : ℕ) (x : T)
        → ((Vector.set i x v ≡ panic index_out_of_bounds) ↔ (length xs ≤ i))
          × ((Vector.replace borsh i x v ≡ panic index_out_of_bounds) ↔ (length xs ≤ i))
          × ((Vector.swap borsh i j v ≡ panic index_out_of_bounds)
              ↔ ((length xs ≤ i) ⊎ (length xs ≤ j)))
          × ((Vector.swap_remove borsh i v ≡ panic index_out_of_bounds) ↔ (length xs ≤ i))
          × ((Vector.get borsh i v ≡ done (none, v)) ↔ (length xs ≤ i))
          × ((Vector.get_mut borsh f i v ≡ done (none, v)) ↔ (length xs ≤ i))
          × ((Vector.pop borsh v ≡ done (none, v)) ↔ (length xs ≡ 0))
    unfolding Vector.get Vector.get_mut Vector.set Vector.replace Vector.swap Vector.swap_remove
        Vector.pop
    out_of_bounds f i j x = (
      (set_in_bounds i x, λ h. ground (arith, r.len, h)),
      (replace_in_bounds i x, λ h. ground (arith, r.len, h)),
      (swap_in_bounds i j, λ h. ground (arith, r.len, h)),
      (swap_remove_in_bounds i, λ h. ground (arith, r.len, h)),
      (get_in_bounds i, λ h. ground (arith, r.len, h)),
      (get_mut_in_bounds f i, λ h. ground (arith, r.len, h)),
      (pop_in_bounds, λ h. ground (arith, r.len, h)),
    )

  -- The elements from `i` on, `n` of them, are removed.
  abbrev without : ℕ → ℕ → (ℕ → Option T) → ℕ → Option T
  without n i f j = if leb i j && ltb j (i + n) then none else f j

  clear_from_lem :
      (n i : ℕ) (v : Vector T) (f : ℕ → Option T)
      → i + n ≤ u32_size
      → Represents borsh v.values f
      → (s' : Stored T) × (Vector.clear_from n i v ≡ done (tt, record v { values = s' }))
        × Represents borsh s' (without n i f)
  unfolding Vector.clear_from
  clear_from_lem zero i v f h r =
      (v.values, refl, Represents-ext borsh v.values f (without 0 i f) (λ j. ground arith) r)
  clear_from_lem (suc n) i v f h r =
      let (s1, e1, r1) = set_lem borsh i v.values f (omega arith) r none in
      let (s2, e2, r2) =
        clear_from_lem n (i + 1) (record v { values = s1 }) (update i none f) (omega arith) r1 in
      (
        s2,
        ground arith,
        Represents-ext borsh s2 (without n (i + 1) (update i none f)) (without (suc n) i f)
            (λ j. ground arith) r2,
      )

  module _ (v : Vector T) (xs : List T) (r : IsVector borsh v xs) where
    -- A cleared vector holds no element, in the map either.
    pub clear_lem : Gives borsh (Vector.clear v) tt []
    unfolding Vector.clear
    clear_lem =
        let (s', e, rep) =
          clear_from_lem v.len 0 v (get_elem? xs) (omega (arith, r.len, r.bound)) r.elements in
        (
          record { len = 0; values = s' },
          ground arith,
          record {
            len = refl;
            bound = omega arith;
            elements =
                Represents-ext borsh s' (without v.len 0 (get_elem? xs)) (get_elem? [])
                  (λ j. ground (arith, r.len, get_elem?-none xs j)) rep;
          },
        )

    -- If every element can be serialized, a flushed vector holds its list, and so does a vector
    -- that is made of its length and prefix alone and reads storage afterwards.
    pub flush_then_load :
        ((x : T) → (b : Bytes) × (borsh.serialize x ≡ some b))
        → (v' : Vector T) × (Vector.flush borsh v ≡ done (tt, v'))
          × IsVector borsh v' xs
          × IsVector borsh
              (record {
                len = v.len;
                values = record { map = IndexMap.new v.values.map.prefix; trie = v'.values.trie };
              })
              xs
    unfolding Vector.flush
    flush_then_load total =
        let (s', e, kept, reloaded, _) =
          flush_then_reload borsh total v.values (get_elem? xs) r.elements in
        (
          record v { values = s' },
          ground arith,
          record { len = r.len; bound = r.bound; elements = kept },
          record { len = r.len; bound = r.bound; elements = reloaded },
        )

-- ===== src/Store/VectorList.antt =====
-- The vector implements a list (near-sdk/src/store/vec/mod.rs).
use near_runtime_rs.Base.{
  ℕ, zero, suc, ◌+◌, ◌-◌, ◌<◌, ◌≤◌, ◌≡◌, ◌≢◌, Option, none, some, List, [], ◌∷◌, ◌++◌, Outcome,
  done, panic, u32_size, arith, refl, subst, sym, ap, get_elem?_bound, ◌∙◌, length, get_elem?, take,
  ◌==◌, if◌then◌else◌, length-append, length-set, get_elem?-set_self, get_elem?-set_ne,
  get_elem?-some, get_elem?-none, get_elem?-append_left, get_elem?-append_last, ℕ_discrete, dec_lt,
  length-take, get_elem?-take, get_elem?-take-none,
}
use near_runtime_rs.Base
use near_runtime_rs.Store.Trie.{Borsh}
use near_runtime_rs.Store.IndexMap.{Stored, Panic, insert_element, remove}
use near_runtime_rs.Store.Represents.{update, update_ext, Represents, Represents-ext}
use near_runtime_rs.Store.Elements.{get_lem, replace_at_lem, set_lem}
use near_runtime_rs.Store.Vector.{Vector}
use near_runtime_rs.Store.Vector

module _ {T : Type 0} (borsh : Borsh T) where
  -- The vector holds the list: its length is right and fits a `u32`, and the map stands for the
  -- elements at their positions, with nothing beyond the end.
  pub record IsVector (v : Vector T) (xs : List T) : Type 0 where
    pub len : v.len ≡ length xs
    pub bound : length xs < u32_size
    pub elements : Represents borsh v.values (get_elem? xs)

  -- The call returns `a`, and the vector holds `ys` then.
  abbrev pub Gives : {A : Type 0} → Outcome Panic (A × Vector T) → A → List T → Type 0
  Gives o a ys = (v' : Vector T) × (o ≡ done (a, v')) × IsVector v' ys

  update-set :
      (xs : List T) (i : ℕ) (x : T) (j : ℕ)
      → i < length xs
      → update i (some x) (get_elem? xs) j ≡ get_elem? (Base.set xs i x) j
  update-set xs i x j h =
      update_ext i (some x) (get_elem? xs) (get_elem? (Base.set xs i x))
        (sym (get_elem?-set_self xs i x h)) (λ k ne. sym (get_elem?-set_ne xs i k x ne)) j

  append_others :
      (xs : List T) (x : T) (j : ℕ) → length xs ≢ j → get_elem? xs j ≡ get_elem? (xs ++ (x ∷ [])) j
  append_others xs x j ne = elim (dec_lt j (length xs)) [
    | yes p ↦ sym (get_elem?-append_left xs (x ∷ []) j p)
    | no p ↦
        get_elem?-none xs j (omega arith)
        ∙ sym (get_elem?-none (xs ++ (x ∷ [])) j (omega (arith, length-append xs (x ∷ []))))
  ]

  take_others :
      (xs : List T) (n j : ℕ) → length xs ≡ suc n → n ≢ j → get_elem? xs j ≡ get_elem? (take n xs) j
  take_others xs n j e ne = elim (dec_lt j n) [
    | yes p ↦ sym (get_elem?-take n xs j p)
    | no p ↦ get_elem?-none xs j (omega arith) ∙ sym (get_elem?-take-none n xs j (omega arith))
  ]

  update-push :
      (xs : List T) (x : T) (j : ℕ)
      → update (length xs) (some x) (get_elem? xs) j ≡ get_elem? (xs ++ (x ∷ [])) j
  update-push xs x j =
      update_ext (length xs) (some x) (get_elem? xs) (get_elem? (xs ++ (x ∷ [])))
        (sym (get_elem?-append_last xs x)) (append_others xs x) j

  update-pop :
      (xs : List T) (n : ℕ) (j : ℕ)
      → length xs ≡ suc n
      → update n none (get_elem? xs) j ≡ get_elem? (take n xs) j
  update-pop xs n j e =
      update_ext n none (get_elem? xs) (get_elem? (take n xs))
        (sym (get_elem?-take-none n xs n (omega arith))) (λ k ne. take_others xs n k e ne) j

  pop_step :
      (v : Vector T) (n : ℕ) (a : Option T) (s' : Stored T)
      → v.len ≡ suc n
      → remove borsh n v.values ≡ done (a, s')
      → Vector.pop borsh v ≡ done (a, record { len = n; values = s' })
  unfolding Vector.pop
  pop_step v n a s' h e =
      let prev : v.len - 1 ≡ n = omega arith in
      let step : remove borsh (v.len - 1) v.values ≡ done (a, s') =
        ap (λ k. remove borsh k v.values) prev ∙ e in
      ground arith

  module _ (v : Vector T) (xs : List T) (r : IsVector v xs) where
    -- `push` appends, as long as the length fits a `u32`.
    pub push_lem : (x : T) → length xs + 1 < u32_size → Gives (Vector.push x v) tt (xs ++ (x ∷ []))
    unfolding Vector.push
    push_lem x fits =
        let n = length xs in
        let (s', e, rep) =
          set_lem borsh v.len v.values (get_elem? xs) (omega (arith, r.len)) r.elements (some x) in
        (
          record { len = v.len + 1; values = s' },
          ground (arith, r.len),
          record {
            len = omega (arith, r.len, length-append xs (x ∷ []));
            bound = omega (arith, length-append xs (x ∷ []));
            elements =
                Represents-ext borsh s' (update v.len (some x) (get_elem? xs))
                  (get_elem? (xs ++ (x ∷ [])))
                  (λ j. ap (λ k. update k (some x) (get_elem? xs) j) r.len ∙ update-push xs x j)
                  rep;
          },
        )

    pub set_elem : (i : ℕ) (x : T) → i < length xs → Gives (Vector.set i x v) tt (Base.set xs i x)
    unfolding Vector.set
    set_elem i x h =
        let (s', e, rep) =
          set_lem borsh i v.values (get_elem? xs) (omega (arith, r.bound)) r.elements (some x) in
        (
          record v { values = s' },
          ground (arith, r.len),
          record {
            len = r.len ∙ sym (length-set xs i x);
            bound = omega (arith, r.bound, length-set xs i x);
            elements =
                Represents-ext borsh s' (update i (some x) (get_elem? xs))
                  (get_elem? (Base.set xs i x)) (λ j. update-set xs i x j h) rep;
          },
        )

    pub get_elem_lem : (i : ℕ) → Gives (Vector.get borsh i v) (get_elem? xs i) xs
    unfolding Vector.get
    get_elem_lem i = elim (dec_lt i (length xs)) [
      | yes h ↦
          let (s', e, rep) =
            get_lem borsh i v.values (get_elem? xs) (omega (arith, r.bound)) r.elements in
          (
            record v { values = s' },
            ground (arith, r.len),
            record { len = r.len; bound = r.bound; elements = rep },
          )
      | no h ↦ (v, ground (arith, r.len, get_elem?-none xs i (omega arith)), r)
    ]

    -- `replace` in bounds returns the old element and writes the new one.
    pub replace_elem :
        (i : ℕ) (x y : T)
        → get_elem? xs i ≡ some y
        → Gives (Vector.replace borsh i x v) y (Base.set xs i x)
    unfolding Vector.replace insert_element
    replace_elem i x y found =
        let h = get_elem?_bound xs i found in
        let (s', e, rep) =
          replace_at_lem borsh i v.values (get_elem? xs) (omega (arith, r.bound)) r.elements
            (some x) in
        (
          record v { values = s' },
          ground (arith, r.len),
          record {
            len = r.len ∙ sym (length-set xs i x);
            bound = omega (arith, r.bound, length-set xs i x);
            elements =
                Represents-ext borsh s' (update i (some x) (get_elem? xs))
                  (get_elem? (Base.set xs i x)) (λ j. update-set xs i x j h) rep;
          },
        )

    pub pop_elem :
        (n : ℕ) → length xs ≡ suc n → Gives (Vector.pop borsh v) (get_elem? xs n) (take n xs)
    unfolding remove
    pop_elem n h =
        let (s', e, rep) =
          replace_at_lem borsh n v.values (get_elem? xs) (omega (arith, r.bound)) r.elements none in
        (
          record { len = n; values = s' },
          pop_step v n (get_elem? xs n) s' (r.len ∙ h) e,
          record {
            len = sym (length-take n xs (omega arith));
            bound = omega (arith, r.bound, length-take n xs);
            elements =
                Represents-ext borsh s' (update n none (get_elem? xs)) (get_elem? (take n xs))
                  (λ j. update-pop xs n j h) rep;
          },
        )

-- ===== src/Store/SwapRemove.antt =====
-- Exchange of elements and removal by exchange with the last (near-sdk/src/store/vec/mod.rs).
use near_runtime_rs.Base.{
  ℕ, zero, suc, ◌+◌, ◌-◌, ◌<◌, ◌≤◌, ◌≡◌, ◌≢◌, Option, none, some, List, [], ◌∷◌, Outcome, done,
  panic, u32_size, arith, refl, subst, sym, ap, ◌∙◌, length, get_elem?, take, length-set,
  get_elem?-set_self, get_elem?-set_ne, get_elem?_bound, ℕ_discrete, dec_lt, take-set,
}
use near_runtime_rs.Base
use near_runtime_rs.Store.Trie.{Borsh}
use near_runtime_rs.Store.Represents.{Represents-ext}
use near_runtime_rs.Store.Elements.{swap_lem, exchange}
use near_runtime_rs.Store.Vector.{Vector}
use near_runtime_rs.Store.Vector
use near_runtime_rs.Store.VectorList.{IsVector, Gives, pop_elem}

module _ {T : Type 0} (borsh : Borsh T) where
  -- The list with the elements at `a` and `b` exchanged, which are `x` and `y`.
  abbrev pub swapped : List T → ℕ → ℕ → T → T → List T
  swapped xs a b x y = Base.set (Base.set xs a y) b x

  exchange-swapped :
      (xs : List T) (a b : ℕ) (x y : T) (j : ℕ)
      → get_elem? xs a ≡ some x
      → get_elem? xs b ≡ some y
      → exchange borsh a b (get_elem? xs) j ≡ get_elem? (swapped xs a b x y) j
  exchange-swapped xs a b x y j ea eb = ground (
    arith,
    get_elem?-set_self (Base.set xs a y) b x,
    get_elem?-set_self xs a y,
    get_elem?-set_ne (Base.set xs a y) b j x,
    get_elem?-set_ne xs a j y,
    get_elem?_bound xs a ea,
    get_elem?_bound xs b eb,
    length-set xs a y,
  )

  swap_remove_step :
      (v : Vector T) (n i : ℕ) (x : T) (v1 v2 : Vector T)
      → v.len ≡ suc n
      → Vector.swap borsh i n v ≡ done (tt, v1)
      → Vector.pop borsh v1 ≡ done (some x, v2)
      → Vector.swap_remove borsh i v ≡ done (x, v2)
  unfolding Vector.swap_remove
  swap_remove_step v n i x v1 v2 h e1 e2 =
      let prev : v.len - 1 ≡ n = omega arith in
      let step : Vector.swap borsh i (v.len - 1) v ≡ done (tt, v1) =
        ap (λ k. Vector.swap borsh i k v) prev ∙ e1 in
      ground arith

  module _ (v : Vector T) (xs : List T) (r : IsVector borsh v xs) where
    pub swap_elems :
        (a b : ℕ) (x y : T)
        → get_elem? xs a ≡ some x
        → get_elem? xs b ≡ some y
        → Gives borsh (Vector.swap borsh a b v) tt (swapped xs a b x y)
    unfolding Vector.swap
    swap_elems a b x y ea eb =
        let ha = get_elem?_bound xs a ea in
        let hb = get_elem?_bound xs b eb in
        let (s', e, rep) =
          swap_lem borsh a b v.values (get_elem? xs) (omega (arith, r.bound))
            (omega (arith, r.bound)) r.elements in
        (
          record v { values = s' },
          ground (arith, r.len),
          record {
            len = omega (arith, r.len, length-set xs a y, length-set (Base.set xs a y) b x);
            bound = omega (arith, r.bound, length-set xs a y, length-set (Base.set xs a y) b x);
            elements =
                Represents-ext borsh s' (exchange borsh a b (get_elem? xs))
                  (get_elem? (swapped xs a b x y)) (λ j. exchange-swapped xs a b x y j ea eb) rep;
          },
        )

    -- Removal at `i` returns the element there, and the last element takes its place.
    pub swap_remove_elem :
        (n i : ℕ) (x y : T)
        → length xs ≡ suc n
        → get_elem? xs i ≡ some x
        → get_elem? xs n ≡ some y
        → Gives borsh (Vector.swap_remove borsh i v) x (take n (Base.set xs i y))
    swap_remove_elem n i x y h ei en =
        let zs = swapped xs i n x y in
        let (v1, e1, r1) = swap_elems i n x y ei en in
        let size : length zs ≡ suc n =
          omega (arith, length-set (Base.set xs i y) n x, length-set xs i y) in
        let (v2, e2, r2) = pop_elem borsh v1 zs r1 n size in
        let last : get_elem? zs n ≡ some x =
          get_elem?-set_self (Base.set xs i y) n x (omega (arith, length-set xs i y)) in
        (
          v2,
          swap_remove_step v n i x v1 v2 (r.len ∙ h) e1 (e2 ∙ ap (λ o. done (o, v2)) last),
          subst (IsVector borsh v2) (take-set n (Base.set xs i y) x) r2,
        )

-- ===== src/TreeMap/Lookup.antt =====
-- The searches down a valid tree find what a search through the sorted list of its keys finds
-- (near-sdk/src/store/tree_map/mod.rs, above_at, below_at and equal_at).
use near_runtime_rs.Base.{
  ℕ, zero, suc, ◌≡◌, ◌≤◌, true, false, if◌then◌else◌, Option, none, some, List, [], ◌∷◌, ◌++◌,
  arith, refl, ap, sym, ◌∙◌, Outcome, done, Bool-cases, inl, inr,
}
use near_runtime_rs.FreeList.Defs.{FreeListIndex}
use near_runtime_rs.TreeMap.Ord.{Ord}
use near_runtime_rs.TreeMap.Tree.{
  Node, Nodes, Tree, Panic, node, fuel_at, above_from, above_at, below_from, below_at, equal_from,
  equal_at, higher, lower, equal_key, floor_key, ceil_key,
}
use near_runtime_rs.TreeMap.Shape.{Shape, leaf, branch, height, link, keys}
use near_runtime_rs.TreeMap.Represents.{node_of, Represents, height_of-link}
use near_runtime_rs.TreeMap.SortedKeys.{
  AllBelow, AllAbove, Sorted, Sorted-halves, has_key, has_key-append, next_above, last_below,
}
use near_runtime_rs.TreeMap.InsertKeys.{IsTree}

abbrev pub or_else : {A : Type 0} → Option A → Option A → Option A
or_else none y = y
or_else (some x) y = some x

-- A search from a link, and what it returns if the link is empty.
abbrev pub from_link :
    {A : Type 0} → (FreeListIndex → Outcome Panic A) → A → Option FreeListIndex → Outcome Panic A
from_link f a none = done a
from_link f a (some i) = f i

or_else-none : {A : Type 0} (x : Option A) → or_else x none ≡ x
or_else-none none = refl
or_else-none (some x) = refl

module _ {K : Type 0} ⦃o : Ord K⦄ where
  next_above-append :
      (q : K) (xs ys : List K)
      → next_above q (xs ++ ys) ≡ or_else (next_above q xs) (next_above q ys)
  unfolding next_above
  next_above-append q [] ys = refl
  next_above-append q (x ∷ xs) ys = ground (arith, next_above-append q xs ys)

  last_below-append :
      (q : K) (xs ys : List K)
      → last_below q (xs ++ ys) ≡ or_else (last_below q ys) (last_below q xs)
  unfolding last_below
  last_below-append q [] ys = sym (or_else-none (last_below q ys))
  last_below-append q (x ∷ xs) ys = ground (arith, last_below-append q xs ys)

  -- No key below a bound lies above the bound, and none above it lies below.
  next_above-none :
      (q k : K) (xs : List K) → AllBelow k xs → o.lt_key q k ≡ false → next_above q xs ≡ none
  unfolding next_above
  next_above-none q k [] b n = refl
  next_above-none q k (x ∷ xs) b n =
      ground (arith, next_above-none q k xs b.1 n, o.lt_trans q x k, n, b.0)

  last_below-none :
      (q k : K) (xs : List K) → AllAbove k xs → o.lt_key k q ≡ false → last_below q xs ≡ none
  unfolding last_below
  last_below-none q k [] b n = refl
  last_below-none q k (x ∷ xs) b n =
      ground (arith, last_below-none q k xs b.1 n, o.lt_trans k x q, n, b.0)

  pub has_key_above :
      (q k : K) (xs : List K) → AllAbove k xs → o.lt_key k q ≡ false → has_key q xs ≡ false
  unfolding has_key
  has_key_above q k [] b n = refl
  has_key_above q k (x ∷ xs) b n =
      ground (arith, has_key_above q k xs b.1 n, o.eq_sound q x, n, b.0)

  pub has_key_below :
      (q k : K) (xs : List K) → AllBelow k xs → o.lt_key k q ≡ true → has_key q xs ≡ false
  unfolding has_key
  has_key_below q k [] b n = refl
  has_key_below q k (x ∷ xs) b n =
      ground
        (arith, has_key_below q k xs b.1 n, o.eq_sound q x, n, b.0, o.lt_trans k q k, o.lt_irrefl k)

  pub eq_swap : (a b : K) → o.eq_key a b ≡ o.eq_key b a
  eq_swap a b = ground (arith, o.eq_sound a b, o.eq_sound b a, o.eq_refl a, o.eq_refl b)

  above_link :
      (fuel : ℕ) (h : Nodes K) (t : Shape K) (q : K) (seen : Option K)
      → Represents h t
      → Sorted (keys t)
      → height t ≤ fuel
      → from_link (λ c. above_from fuel h c q seen) seen (link t)
        ≡ done (or_else (next_above q (keys t)) seen)
  unfolding above_from next_above
  above_link fuel h leaf q seen e s b = refl
  above_link zero h (branch i k l r) q seen e s b = absurd (omega (arith, b))
  above_link (suc fuel) h (branch i k l r) q seen e s b =
      let halves = Sorted-halves (keys l) k (keys r) s in
      let split = next_above-append q (keys l) (k ∷ keys r) in
      let ls = above_link fuel h l q (some k) e.1 halves.0 (omega (arith, b)) in
      let rs = above_link fuel h r q seen e.2 halves.3 (omega (arith, b)) in
      elim (Bool-cases (o.lt_key q k)) [
        | inl t ↦ ground (arith, e.0, t, split, ls)
        | inr f ↦ ground (arith, e.0, f, split, rs, next_above-none q k (keys l) halves.1 f)
      ]

  below_link :
      (fuel : ℕ) (h : Nodes K) (t : Shape K) (q : K) (seen : Option K)
      → Represents h t
      → Sorted (keys t)
      → height t ≤ fuel
      → from_link (λ c. below_from fuel h c q seen) seen (link t)
        ≡ done (or_else (last_below q (keys t)) seen)
  unfolding below_from last_below
  below_link fuel h leaf q seen e s b = refl
  below_link zero h (branch i k l r) q seen e s b = absurd (omega (arith, b))
  below_link (suc fuel) h (branch i k l r) q seen e s b =
      let halves = Sorted-halves (keys l) k (keys r) s in
      let split = last_below-append q (keys l) (k ∷ keys r) in
      let ls = below_link fuel h l q seen e.1 halves.0 (omega (arith, b)) in
      let rs = below_link fuel h r q (some k) e.2 halves.3 (omega (arith, b)) in
      elim (Bool-cases (o.lt_key k q)) [
        | inl t ↦ ground (arith, e.0, t, split, rs)
        | inr f ↦ ground (arith, e.0, f, split, ls, last_below-none q k (keys r) halves.2 f)
      ]

  -- The key itself, where the keys have it.
  abbrev pub found : K → List K → Option K
  found q ks = if has_key q ks then some q else none

  found_here : (q k : K) (xs ys : List K) → o.eq_key k q ≡ true → found q (xs ++ (k ∷ ys)) ≡ some k
  unfolding has_key
  found_here q k xs ys t =
      let e = o.eq_sound k q t in
      let split = has_key-append q xs (k ∷ ys) in
      let here : o.eq_key q k ≡ true = sym (eq_swap k q) ∙ t in
      let has : has_key q (xs ++ (k ∷ ys)) ≡ true = split ∙ (ground (arith, here)) in
      ground (arith, has, e)

  equal_here :
      (fuel : ℕ) (h : Nodes K) (i : FreeListIndex) (q : K) (n : Node K)
      → node h i ≡ some n
      → o.eq_key n.key q ≡ true
      → equal_from (suc fuel) h i q ≡ done (some n.key)
  unfolding equal_from
  equal_here fuel h i q n e t = ground (arith, e, t)

  equal_aside :
      (fuel : ℕ) (h : Nodes K) (i : FreeListIndex) (q : K) (n : Node K)
      → node h i ≡ some n
      → o.eq_key n.key q ≡ false
      → equal_from (suc fuel) h i q
        ≡ from_link (λ c. equal_from fuel h c q) none (if o.lt_key n.key q then n.rgt else n.lft)
  unfolding equal_from
  equal_aside fuel h i q n e f = ground (arith, e, f)

  found_right :
      (q k : K) (xs ys : List K)
      → AllBelow k xs
      → o.eq_key k q ≡ false
      → o.lt_key k q ≡ true
      → found q (xs ++ (k ∷ ys)) ≡ found q ys
  unfolding has_key
  found_right q k xs ys b f t =
      ground (arith, has_key-append q xs (k ∷ ys), eq_swap k q, f, has_key_below q k xs b t)

  found_left :
      (q k : K) (xs ys : List K)
      → AllAbove k ys
      → o.eq_key k q ≡ false
      → o.lt_key k q ≡ false
      → found q (xs ++ (k ∷ ys)) ≡ found q xs
  unfolding has_key
  found_left q k xs ys b f t =
      ground (arith, has_key-append q xs (k ∷ ys), eq_swap k q, f, has_key_above q k ys b t)

  equal_link :
      (fuel : ℕ) (h : Nodes K) (t : Shape K) (q : K)
      → Represents h t
      → Sorted (keys t)
      → height t ≤ fuel
      → from_link (λ c. equal_from fuel h c q) none (link t) ≡ done (found q (keys t))
  unfolding equal_from has_key
  equal_link fuel h leaf q e s b = refl
  equal_link zero h (branch i k l r) q e s b = absurd (omega (arith, b))
  equal_link (suc fuel) h (branch i k l r) q e s b =
      let halves = Sorted-halves (keys l) k (keys r) s in
      elim (Bool-cases (o.eq_key k q)) [
        | inl t ↦
            equal_here fuel h i q (node_of k l r) e.0 t
            ∙ ap done (sym (found_here q k (keys l) (keys r) t))
        | inr f ↦ equal_aside fuel h i q (node_of k l r) e.0 f ∙ elim (Bool-cases (o.lt_key k q)) [
          | inl t ↦ rw t (
              equal_link fuel h r q e.2 halves.3 (omega (arith, b))
              ∙ ap done (sym (found_right q k (keys l) (keys r) halves.1 f t)))
          | inr n ↦ rw n (
              equal_link fuel h l q e.1 halves.0 (omega (arith, b))
              ∙ ap done (sym (found_left q k (keys l) (keys r) halves.2 f n)))
        ]
      ]

  -- In a valid tree, the search for the next higher key returns the least key above the given one.
  pub higher_lem :
      (q : K) (t : Tree K) (s : Shape K) (free : List FreeListIndex)
      → IsTree t s free
      → higher t q ≡ done (next_above q (keys s))
  unfolding higher above_at next_above
  higher_lem q t leaf free v = ground (arith, v.root)
  higher_lem q t (branch i k l r) free v =
      let found =
        above_link (fuel_at i t.nodes) t.nodes (branch i k l r) q none v.represents v.sorted
          (omega (arith, height_of-link t.nodes (branch i k l r) v.represents)) in
      ground (arith, v.root, found, or_else-none (next_above q (keys (branch i k l r))))

  -- In a valid tree, the search for the next lower key returns the greatest key below the given one.
  pub lower_lem :
      (q : K) (t : Tree K) (s : Shape K) (free : List FreeListIndex)
      → IsTree t s free
      → lower t q ≡ done (last_below q (keys s))
  unfolding lower below_at last_below
  lower_lem q t leaf free v = ground (arith, v.root)
  lower_lem q t (branch i k l r) free v =
      let found =
        below_link (fuel_at i t.nodes) t.nodes (branch i k l r) q none v.represents v.sorted
          (omega (arith, height_of-link t.nodes (branch i k l r) v.represents)) in
      ground (arith, v.root, found, or_else-none (last_below q (keys (branch i k l r))))

  -- In a valid tree, the search for a key finds it, if it is among the keys.
  pub equal_key_lem :
      (q : K) (t : Tree K) (s : Shape K) (free : List FreeListIndex)
      → IsTree t s free
      → equal_key t q ≡ done (found q (keys s))
  unfolding equal_key equal_at has_key
  equal_key_lem q t leaf free v = ground (arith, v.root)
  equal_key_lem q t (branch i k l r) free v =
      let run =
        equal_link (fuel_at i t.nodes) t.nodes (branch i k l r) q v.represents v.sorted
          (omega (arith, height_of-link t.nodes (branch i k l r) v.represents)) in
      ground (arith, v.root, run)

  -- In a valid tree, the search for a key or the next one on either side returns that key if it is
  -- there, and the nearest key on that side if it is not.
  pub nearest_lem :
      (q : K) (t : Tree K) (s : Shape K) (free : List FreeListIndex)
      → IsTree t s free
      → (ceil_key t q ≡ done (or_else (found q (keys s)) (next_above q (keys s))))
        × (floor_key t q ≡ done (or_else (found q (keys s)) (last_below q (keys s))))
  unfolding ceil_key floor_key
  nearest_lem q t s free v = (
    ground (arith, equal_key_lem q t s free v, higher_lem q t s free v),
    ground (arith, equal_key_lem q t s free v, lower_lem q t s free v),
  )

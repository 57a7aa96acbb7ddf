-- ===== src/TreeMap/SortedKeys.antt =====
-- Sorted lists of keys: the order of a tree's keys, and the reference for its operations.
use near_runtime_rs.Base.{
  ◌≡◌, Bool, true, false, Option, none, some, List, [], ◌∷◌, ◌++◌, if◌then◌else◌, arith, refl, ◌||◌,
}
use near_runtime_rs.TreeMap.Ord.{Ord}

module _ {K : Type 0} ⦃o : Ord K⦄ where
  abbrev pub AllBelow : K → List K → Type 0
  AllBelow q [] = Unit
  AllBelow q (x ∷ xs) = (o.lt_key x q ≡ true) × AllBelow q xs

  abbrev pub AllAbove : K → List K → Type 0
  AllAbove q [] = Unit
  AllAbove q (x ∷ xs) = (o.lt_key q x ≡ true) × AllAbove q xs

  abbrev pub Sorted : List K → Type 0
  Sorted [] = Unit
  Sorted (x ∷ xs) = AllAbove x xs × Sorted xs

  -- The key goes before the first one that is greater.
  unfoldable pub insert_sorted : K → List K → List K
  insert_sorted q [] = q ∷ []
  insert_sorted q (x ∷ xs) = if o.lt_key q x then q ∷ (x ∷ xs) else x ∷ insert_sorted q xs

  unfoldable pub has_key : K → List K → Bool
  has_key q [] = false
  has_key q (x ∷ xs) = o.eq_key q x || has_key q xs

  -- The least key above a key, and the greatest below it.
  unfoldable pub next_above : K → List K → Option K
  next_above q [] = none
  next_above q (x ∷ xs) = if o.lt_key q x then some x else next_above q xs

  unfoldable pub last_below : K → List K → Option K
  last_below q [] = none
  last_below q (x ∷ xs) = elim (last_below q xs) [
    | some y ↦ some y
    | none ↦ if o.lt_key x q then some x else none
  ]

  pub AllAbove-lt : (a b : K) (xs : List K) → o.lt_key a b ≡ true → AllAbove b xs → AllAbove a xs
  AllAbove-lt a b [] l h = tt
  AllAbove-lt a b (x ∷ xs) l h = (o.lt_trans a b x l h.0, AllAbove-lt a b xs l h.1)

  pub AllBelow-lt : (a b : K) (xs : List K) → o.lt_key a b ≡ true → AllBelow a xs → AllBelow b xs
  AllBelow-lt a b [] l h = tt
  AllBelow-lt a b (x ∷ xs) l h = (o.lt_trans x a b h.0 l, AllBelow-lt a b xs l h.1)

  AllAbove-append : (a : K) (xs ys : List K) → AllAbove a (xs ++ ys) → AllAbove a xs × AllAbove a ys
  AllAbove-append a [] ys h = (tt, h)
  AllAbove-append a (x ∷ xs) ys h = let r = AllAbove-append a xs ys h.1 in ((h.0, r.0), r.1)

  -- The halves of a sorted list, around one of its keys.
  pub Sorted-halves :
      (xs : List K) (k : K) (ys : List K)
      → Sorted (xs ++ (k ∷ ys))
      → Sorted xs × AllBelow k xs × AllAbove k ys × Sorted ys
  Sorted-halves [] k ys h = (tt, tt, h.0, h.1)
  Sorted-halves (x ∷ xs) k ys h =
      let r = Sorted-halves xs k ys h.1 in
      let a = AllAbove-append x xs (k ∷ ys) h.0 in ((a.0, r.0), (a.1.0, r.1), r.2, r.3)

  pub insert_sorted_left :
      (q : K) (xs : List K) (k : K) (ys : List K)
      → o.lt_key q k ≡ true
      → insert_sorted q (xs ++ (k ∷ ys)) ≡ insert_sorted q xs ++ (k ∷ ys)
  unfolding insert_sorted
  insert_sorted_left q [] k ys l = ground (arith, l)
  insert_sorted_left q (x ∷ xs) k ys l = ground (arith, insert_sorted_left q xs k ys l)

  -- Nothing that lies below a key can lie above a greater one.
  below_not_above :
      (q x k : K)
      → o.lt_key x k ≡ true
      → o.lt_key q k ≡ false
      → o.eq_key q k ≡ false
      → o.lt_key q x ≡ false
  below_not_above q x k b n ne = ground (arith, o.lt_trans q x k, n, b)

  pub insert_sorted_right :
      (q : K) (xs : List K) (k : K) (ys : List K)
      → AllBelow k xs
      → o.lt_key q k ≡ false
      → o.eq_key q k ≡ false
      → insert_sorted q (xs ++ (k ∷ ys)) ≡ xs ++ (k ∷ insert_sorted q ys)
  unfolding insert_sorted
  insert_sorted_right q [] k ys b n ne = ground (arith, n)
  insert_sorted_right q (x ∷ xs) k ys b n ne =
      ground (arith, below_not_above q x k b.0 n ne, insert_sorted_right q xs k ys b.1 n ne)

  AllAbove-insert_sorted :
      (a q : K) (xs : List K)
      → o.lt_key a q ≡ true
      → AllAbove a xs
      → AllAbove a (insert_sorted q xs)
  unfolding insert_sorted
  AllAbove-insert_sorted a q [] l h = (l, tt)
  AllAbove-insert_sorted a q (x ∷ xs) l h = ground (arith, AllAbove-insert_sorted a q xs l h.1)

  pub insert_sorted-Sorted :
      (q : K) (xs : List K) → has_key q xs ≡ false → Sorted xs → Sorted (insert_sorted q xs)
  unfolding insert_sorted has_key
  insert_sorted-Sorted q [] f h = (tt, tt)
  insert_sorted-Sorted q (x ∷ xs) f h = ground (
    arith,
    insert_sorted-Sorted q xs,
    AllAbove-lt q x xs,
    AllAbove-insert_sorted x q xs,
    o.lt_total q x,
  )

  pub has_key-insert_sorted :
      (q j : K) (xs : List K) → has_key j (insert_sorted q xs) ≡ (o.eq_key j q || has_key j xs)
  unfolding insert_sorted has_key
  has_key-insert_sorted q j [] = refl
  has_key-insert_sorted q j (x ∷ xs) = ground (arith, has_key-insert_sorted q j xs)

  pub has_key-append :
      (q : K) (xs ys : List K) → has_key q (xs ++ ys) ≡ (has_key q xs || has_key q ys)
  unfolding has_key
  has_key-append q [] ys = refl
  has_key-append q (x ∷ xs) ys = ground (arith, has_key-append q xs ys)

  -- The list without a key.
  unfoldable pub erase : K → List K → List K
  erase q [] = []
  erase q (x ∷ xs) = if o.eq_key q x then xs else x ∷ erase q xs

  pub erase_left :
      (q : K) (xs ys : List K) → has_key q xs ≡ true → erase q (xs ++ ys) ≡ erase q xs ++ ys
  unfolding erase has_key
  erase_left q [] ys h = absurd (ground (arith, h))
  erase_left q (x ∷ xs) ys h = ground (arith, h, erase_left q xs ys)

  pub erase_right :
      (q : K) (xs ys : List K) → has_key q xs ≡ false → erase q (xs ++ ys) ≡ xs ++ erase q ys
  unfolding erase has_key
  erase_right q [] ys h = refl
  erase_right q (x ∷ xs) ys h = ground (arith, h, erase_right q xs ys)

  AllAbove-erase : (a q : K) (xs : List K) → AllAbove a xs → AllAbove a (erase q xs)
  unfolding erase
  AllAbove-erase a q [] h = tt
  AllAbove-erase a q (x ∷ xs) h = ground (arith, AllAbove-erase a q xs h.1)

  pub erase-Sorted : (q : K) (xs : List K) → Sorted xs → Sorted (erase q xs)
  unfolding erase
  erase-Sorted q [] h = tt
  erase-Sorted q (x ∷ xs) h = ground (arith, erase-Sorted q xs h.1, AllAbove-erase x q xs h.0)

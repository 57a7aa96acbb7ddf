-- ===== src/Base/Dict.antt =====
-- Association lists: the contents of a map of the contract, keys with their values.
use Prim.Native.Nat.{ℕ, ◌+◌, ◌≤◌}
use mathlib.Core.Bool.{Bool, true, false}
use mathlib.Core.List.{List, [], ◌∷◌}
use mathlib.Core.Logic.{◌≢◌, ite}
use mathlib.Core.Option.{Option, none, some}
use mathlib.Core.Path.{◌≡◌, refl}
use native.Mathlib.Decide.{ℕ_discrete}
use native.Mathlib.Omega.{arith}

-- Keys are compared for equality, and nothing else is asked of them.
pub record Key {ℓ} (K : Type ℓ) : Type ℓ where
  pub dec_eq : Discrete K

instance abbrev pub nat_key : Key ℕ
nat_key = record { dec_eq = ℕ_discrete }

abbrev pub Dict : Type 0 → Type 0 → Type 0
Dict K V = List (K × V)

abbrev pub is_some : {V : Type 0} → Option V → Bool
is_some none = false
is_some (some _) = true

module _ {K V : Type 0} ⦃key : Key K⦄ where
  abbrev pub lookup : K → Dict K V → Option V
  lookup k [] = none
  lookup k ((j, v) ∷ rest) = ite (key.dec_eq k j) (some v) (lookup k rest)

  abbrev pub insert : K → V → Dict K V → Dict K V
  insert k v [] = (k, v) ∷ []
  insert k v ((j, w) ∷ rest) = ite (key.dec_eq k j) ((k, v) ∷ rest) ((j, w) ∷ insert k v rest)

  abbrev pub erase : K → Dict K V → Dict K V
  erase k [] = []
  erase k ((j, w) ∷ rest) = ite (key.dec_eq k j) rest ((j, w) ∷ erase k rest)

  abbrev pub contains : K → Dict K V → Bool
  contains k m = is_some (lookup k m)

  -- No key is listed twice.
  abbrev pub Distinct : Dict K V → Type 0
  Distinct [] = Unit
  Distinct ((j, w) ∷ rest) = (lookup j rest ≡ none) × Distinct rest

module _ {K V : Type 0} ⦃key : Key K⦄ where
  pub lookup-erase_ne : (j k : K) (m : Dict K V) → j ≢ k → lookup j (erase k m) ≡ lookup j m
  lookup-erase_ne j k [] h = refl
  lookup-erase_ne j k (p ∷ rest) h = ground (arith, lookup-erase_ne j k rest h)

  pub lookup-insert_ne :
      (j k : K) (v : V) (m : Dict K V) → j ≢ k → lookup j (insert k v m) ≡ lookup j m
  lookup-insert_ne j k v [] h = ground arith
  lookup-insert_ne j k v (p ∷ rest) h = ground (arith, lookup-insert_ne j k v rest h)

  pub lookup-insert_self : (k : K) (v : V) (m : Dict K V) → lookup k (insert k v m) ≡ some v
  lookup-insert_self k v [] = ground arith
  lookup-insert_self k v (p ∷ rest) = ground (arith, lookup-insert_self k v rest)

  pub lookup-erase_self : (k : K) (m : Dict K V) → Distinct m → lookup k (erase k m) ≡ none
  lookup-erase_self k [] h = refl
  lookup-erase_self k (p ∷ rest) h = ground (arith, lookup-erase_self k rest h.1)

  pub insert-Distinct : (k : K) (v : V) (m : Dict K V) → Distinct m → Distinct (insert k v m)
  insert-Distinct k v [] h = (refl, tt)
  insert-Distinct k v (p ∷ rest) h =
      ground (arith, insert-Distinct k v rest h.1, lookup-insert_ne p.0 k v rest)

  pub erase-Distinct : (k : K) (m : Dict K V) → Distinct m → Distinct (erase k m)
  erase-Distinct k [] h = tt
  erase-Distinct k (p ∷ rest) h =
      ground (arith, erase-Distinct k rest h.1, lookup-erase_ne p.0 k rest)

module _ {K : Type 0} ⦃key : Key K⦄ where
  -- The sum of the values.
  unfoldable pub sum : Dict K ℕ → ℕ
  sum [] = 0
  sum ((j, v) ∷ rest) = v + sum rest

  pub sum-insert :
      (k : K) (v old : ℕ) (m : Dict K ℕ)
      → lookup k m ≡ some old
      → sum (insert k v m) + old ≡ sum m + v
  unfolding sum
  sum-insert k v old [] e = cc
  sum-insert k v old (x ∷ rest) e = ground (arith, sum-insert k v old rest)

  pub sum-insert_new :
      (k : K) (v : ℕ) (m : Dict K ℕ) → lookup k m ≡ none → sum (insert k v m) ≡ sum m + v
  unfolding sum
  sum-insert_new k v [] e = omega arith
  sum-insert_new k v (x ∷ rest) e = ground (arith, sum-insert_new k v rest)

  pub sum-erase :
      (k : K) (old : ℕ) (m : Dict K ℕ) → lookup k m ≡ some old → sum (erase k m) + old ≡ sum m
  unfolding sum
  sum-erase k old [] e = cc
  sum-erase k old (x ∷ rest) e = ground (arith, sum-erase k old rest)

  pub lookup-le-sum : (k : K) (v : ℕ) (m : Dict K ℕ) → lookup k m ≡ some v → v ≤ sum m
  unfolding sum
  lookup-le-sum k v [] e = cc
  lookup-le-sum k v (x ∷ rest) e = ground (arith, lookup-le-sum k v rest)

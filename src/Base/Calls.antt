-- ===== src/Base/Calls.antt =====
-- How a contract call ends: with a value and the new state, or by a panic, after which the host
-- throws the changes of the call away. `E` is the type of the panics.
use mathlib.Core.Bool.{Bool, true, false}
use mathlib.Core.Option.{Option, none, some}
use mathlib.Core.Logic.{◌⊎◌, inl, inr}
use mathlib.Core.Path.{◌≡◌, refl}

pub data Outcome {ℓ} (E : Type 0) (A : Type ℓ) : Type ℓ where
  done : A → Outcome E A
  panic : E → Outcome E A

abbrev pub Action : Type 0 → Type 0 → Type 0 → Type 0
Action E S A = S → Outcome E (A × S)

module _ {E S A : Type 0} where
  abbrev pub pure : A → Action E S A
  pure a s = done (a, s)

  abbrev pub fail : E → Action E S A
  fail e s = panic e

  abbrev pub gets : (S → A) → Action E S A
  gets f s = done (f s, s)

  abbrev pub or_panic : Option A → E → Action E S A
  or_panic (some a) e = pure a
  or_panic none e = fail e

module _ {E S : Type 0} where
  abbrev pub modify : (S → S) → Action E S (Unit {0})
  modify f s = done (tt, f s)

  -- `require!`
  abbrev pub require : Bool → E → Action E S (Unit {0})
  require true e s = done (tt, s)
  require false e s = panic e

infixl 5 ◌>>=◌ ◌>>◌
abbrev pub ◌>>=◌ : {E S A B : Type 0} → Action E S A → (A → Action E S B) → Action E S B
◌>>=◌ m f s = elim (m s) [ done (a, s') ↦ f a s' | panic e ↦ panic e ]

abbrev pub ◌>>◌ : {E S A B : Type 0} → Action E S A → Action E S B → Action E S B
m >> k = m >>= λ _. k

-- A successful sequence is two successful steps.
pub >>=-eq-done :
    {E S A B : Type 0} (m : Action E S A) (f : A → Action E S B) {s u : S} {b : B}
    → (m >>= f) s ≡ done (b, u)
    → (a : A) × (t : S) × (m s ≡ done (a, t)) × (f a t ≡ done (b, u))
>>=-eq-done {E} {S} {A} {B} m f {s} {u} {b} h = go (m s) refl h
  where
    go :
        (o : Outcome E (A × S))
        → m s ≡ o
        → (elim o [ done (a, s') ↦ f a s' | panic e ↦ panic e ]) ≡ done (b, u)
        → (a : A) × (t : S) × (m s ≡ done (a, t)) × (f a t ≡ done (b, u))
    go (done (a, t)) e h = (a, t, e, h)
    go (panic x) e h = cc

pub Outcome-cases :
    {E A : Type 0} (o : Outcome E A) → ((a : A) × (o ≡ done a)) ⊎ ((x : E) × (o ≡ panic x))
Outcome-cases (done a) = inl (a, refl)
Outcome-cases (panic x) = inr (x, refl)

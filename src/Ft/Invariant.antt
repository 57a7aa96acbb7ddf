-- ===== src/Ft/Invariant.antt =====
-- What holds of the token between calls, and how one update of a balance changes it
-- (near-contract-standards/src/fungible_token/core_impl.rs).
use near_runtime_rs.Base.{
  ◌+◌, ◌≤◌, ◌<◌, ◌≡◌, some, Outcome, done, panic, u128_size, arith, ◌∙◌, ◌>>=◌,
}
use near_runtime_rs.Base.Dict.{
  nat_key, lookup, insert, erase, Distinct, sum, sum-insert, sum-erase, insert-Distinct,
  lookup-le-sum, lookup-erase_ne,
}
use near_runtime_rs.Ft.State.{
  AccountId, Balance, FungibleToken, Panic, World, Call, set_accounts, set_total,
}

-- No account is listed twice, and the supply is the sum of the balances and fits a `u128`.
pub record IsValid (t : FungibleToken) : Type 0 where
  pub distinct : Distinct t.accounts
  pub supply : sum t.accounts ≡ t.total_supply
  pub bounded : t.total_supply < u128_size

-- A call that returns leaves a valid token; one that panics is undone by the host.
abbrev pub Keeps : {A : Type 0} → Outcome Panic (A × World) → Type 0
Keeps (done (a, w)) = IsValid w.token
Keeps (panic p) = Unit

pub balance-le-supply :
    {t : FungibleToken} (a : AccountId) (b : Balance)
    → IsValid t
    → lookup a t.accounts ≡ some b
    → b ≤ t.total_supply
balance-le-supply {t} a b v e = omega (arith, lookup-le-sum a b t.accounts e)

-- Two different accounts hold no more than the supply together.
pub balances-le-supply :
    {t : FungibleToken} (a c : AccountId) (x y : Balance)
    → IsValid t
    → (a ≡ c → ⊥)
    → lookup a t.accounts ≡ some x
    → lookup c t.accounts ≡ some y
    → x + y ≤ t.total_supply
balances-le-supply {t} a c x y v ne ea ec = omega (
  arith,
  sum-erase c y t.accounts ec,
  lookup-le-sum a x (erase c t.accounts) (lookup-erase_ne a c t.accounts ne ∙ ea),
)

-- A call that keeps the invariant from every valid state.
abbrev pub Preserves : {A : Type 0} → Call A → Type 0
Preserves m = (w : World) → IsValid w.token → Keeps (m w)

pub >>=-Preserves :
    {A B : Type 0} (m : Call A) (f : A → Call B)
    → Preserves m
    → ((a : A) → Preserves (f a))
    → Preserves (m >>= f)
>>=-Preserves {A} {B} m f hm hf w v = go (m w) (hm w v)
  where
    go :
        (o : Outcome Panic (A × World))
        → Keeps o
        → Keeps (elim o [ done (a, s') ↦ f a s' | panic e ↦ panic e ])
    go (done (a, t)) k = hf a t k
    go (panic e) k = tt

-- A new balance together with the same change of the supply.
pub update-IsValid :
    (a : AccountId) (old new total : Balance) (w : World)
    → IsValid w.token
    → lookup a w.token.accounts ≡ some old
    → total + old ≡ w.token.total_supply + new
    → total < u128_size
    → IsValid (set_total total (set_accounts (insert a new w.token.accounts) w)).token
update-IsValid a old new total w v e h k = record {
  distinct = insert-Distinct a new w.token.accounts v.distinct;
  supply = omega (arith, sum-insert a new old w.token.accounts e);
  bounded = k;
}

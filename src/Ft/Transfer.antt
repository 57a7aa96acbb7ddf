-- ===== src/Ft/Transfer.antt =====
-- What a transfer between two accounts does
-- (near-contract-standards/src/fungible_token/core_impl.rs, internal_transfer).
use near_runtime_rs.Base.{
  ◌+◌, ◌-◌, ◌≤◌, ◌<◌, ◌≡◌, ◌≢◌, inl, inr, Option, some, Bool, true, false, require, done, u128_size,
  arith, Option-cases,
}
use near_runtime_rs.Base.Dict.{nat_key, lookup, insert, lookup-insert_ne}
use near_runtime_rs.Ft.State.{
  AccountId, Balance, FungibleToken, Panic, World, set_accounts, set_total, emit,
}
use near_runtime_rs.Ft.State
use near_runtime_rs.Ft.Core.{internal_deposit, internal_withdraw, internal_transfer}
use near_runtime_rs.Ft.Invariant.{
  IsValid, Preserves, update-IsValid, balance-le-supply, balances-le-supply,
}
use Prim.Native.String.{String}

-- The state after a transfer of `x` from `s`, which holds `u`, to `r`, which holds `v`.
abbrev pub transferred :
    AccountId → AccountId → Balance → Balance → Balance → Option String → World → World
transferred s r u v x memo w =
    emit (State.Effect.ft_transfer_event s r x memo)
      (set_accounts (insert r (v + x) (insert s (u - x) w.token.accounts)) w)

pub withdraw_done :
    (s : AccountId) (x u : Balance) (w : World)
    → lookup s w.token.accounts ≡ some u
    → x ≤ u
    → x ≤ w.token.total_supply
    → internal_withdraw s x w
      ≡ done (
        tt,
        set_total (w.token.total_supply - x) (set_accounts (insert s (u - x) w.token.accounts) w),
      )
unfolding internal_withdraw
withdraw_done s x u w e h k = ground arith

pub deposit_done :
    (r : AccountId) (x v : Balance) (w : World)
    → lookup r w.token.accounts ≡ some v
    → v + x < u128_size
    → w.token.total_supply + x < u128_size
    → internal_deposit r x w
      ≡ done (
        tt,
        set_total (w.token.total_supply + x) (set_accounts (insert r (v + x) w.token.accounts) w),
      )
unfolding internal_deposit
deposit_done r x v w e h k = ground arith

-- From a valid token, a transfer of a positive amount that the sender has, to another registered
-- account, returns: no check of an overflow fires, the amount moves from one balance to the other,
-- and the event tells so.
pub transfer_done :
    (s r : AccountId) (x u v : Balance) (memo : Option String) (w : World)
    → IsValid w.token
    → s ≢ r
    → 0 < x
    → lookup s w.token.accounts ≡ some u
    → lookup r w.token.accounts ≡ some v
    → x ≤ u
    → internal_transfer s r x memo w ≡ done (tt, transferred s r u v x memo w)
unfolding internal_transfer
transfer_done s r x u v memo w valid ne pos es er h = ground (
  arith,
  balance-le-supply s u valid es,
  balances-le-supply s r u v valid ne es er,
  withdraw_done s x u w es h,
  deposit_done r x v
      (set_total (w.token.total_supply - x) (set_accounts (insert s (u - x) w.token.accounts) w)),
  lookup-insert_ne r s (u - x) w.token.accounts,
)

pub withdraw-Preserves : (s : AccountId) (x : Balance) → Preserves (internal_withdraw s x)
unfolding internal_withdraw
withdraw-Preserves s x w v = elim (Option-cases (lookup s w.token.accounts)) [
  | inl unknown ↦ ground arith
  | inr (u, e) ↦ ground (
    arith,
    balance-le-supply s u v e,
    update-IsValid s u (u - x) (w.token.total_supply - x) w v e,
  )
]

pub deposit-Preserves : (r : AccountId) (x : Balance) → Preserves (internal_deposit r x)
unfolding internal_deposit
deposit-Preserves r x w valid = elim (Option-cases (lookup r w.token.accounts)) [
  | inl unknown ↦ ground arith
  | inr (v, e) ↦ ground (arith, update-IsValid r v (v + x) (w.token.total_supply + x) w valid e)
]

require-Preserves : (b : Bool) (p : Panic) → Preserves (require b p)
require-Preserves true p w v = v
require-Preserves false p w v = tt

pub transfer-Preserves :
    (s r : AccountId) (x : Balance) (memo : Option String)
    → Preserves (internal_transfer s r x memo)
unfolding internal_transfer
transfer-Preserves s r x memo w v = grind (arith, withdraw-Preserves, deposit-Preserves)

-- A transfer succeeds only between two different registered accounts, for a positive amount that
-- the sender has; then it moves exactly that amount and tells so.
pub transfer_inv :
    (s r : AccountId) (x : Balance) (memo : Option String) (w t : World)
    → internal_transfer s r x memo w ≡ done (tt, t)
    → (u v : Balance) × (lookup s w.token.accounts ≡ some u)
      × (lookup r w.token.accounts ≡ some v)
      × (s ≢ r)
      × (0 < x)
      × (x ≤ u)
      × (t ≡ transferred s r u v x memo w)
unfolding internal_transfer internal_withdraw internal_deposit
transfer_inv s r x memo w t e = elim (Option-cases (lookup s w.token.accounts)) [
  | inl unknown ↦ ground arith
  | inr (u, es) ↦ elim (Option-cases (lookup r w.token.accounts)) [
    | inl unknown ↦ ground (arith, lookup-insert_ne r s (u - x) w.token.accounts)
    | inr (v, er) ↦
        let moved = lookup-insert_ne r s (u - x) w.token.accounts in
        (u, v, es, er, ground arith, ground arith, ground arith, ground arith)
  ]
]

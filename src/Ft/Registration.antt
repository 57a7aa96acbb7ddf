-- ===== src/Ft/Registration.antt =====
-- What registration and removal of an account do
-- (near-contract-standards/src/fungible_token/storage_impl.rs).
use near_runtime_rs.Base.{ℕ, ◌-◌, ◌≡◌, inl, inr, Bool, Option, some, done, arith, Option-cases}
use near_runtime_rs.Base.Dict.{
  nat_key, lookup, erase, sum-insert_new, sum-erase, insert-Distinct, erase-Distinct,
}
use near_runtime_rs.Ft.State.{
  AccountId, Balance, FungibleToken, Panic, World, Env, set_accounts, set_total, emit,
}
use near_runtime_rs.Ft.State
use near_runtime_rs.Ft.Core.{internal_register_account}
use near_runtime_rs.Ft.Storage.{
  storage_balance_bounds, saturating_add, unregister_found, internal_storage_unregister,
  storage_unregister, deposit_again, deposit_new, deposit_for, beneficiary, storage_deposit,
  storage_withdraw,
}
use near_runtime_rs.Ft.Invariant.{IsValid, Preserves, balance-le-supply}

pub register-Preserves : (a : AccountId) → Preserves (internal_register_account a)
unfolding internal_register_account
register-Preserves a w v = elim (Option-cases (lookup a w.token.accounts)) [
  | inl fresh ↦ ground (
    arith,
    sum-insert_new a 0 w.token.accounts fresh,
    insert-Distinct a 0 w.token.accounts v.distinct,
  )
  | inr (u, e) ↦ ground arith
]

-- The state after the account `a` with balance `b` is gone and its deposit is on the way back.
abbrev pub unregistered : Env → AccountId → Balance → World → World
unregistered env a b w =
    emit (State.Effect.transfer_near a (saturating_add (storage_balance_bounds env w.token).min 1))
      (set_total (w.token.total_supply - b) (set_accounts (erase a w.token.accounts) w))

pub unregister_found_done :
    (env : Env) (a : AccountId) (b : Balance) (w : World)
    → IsValid w.token
    → lookup a w.token.accounts ≡ some b
    → unregister_found env a b w ≡ done (some (a, b), unregistered env a b w)
unfolding unregister_found storage_balance_bounds
unregister_found_done env a b w v e = ground (arith, balance-le-supply a b v e)

pub unregistered-IsValid :
    (env : Env) (a : AccountId) (b : Balance) (w : World)
    → IsValid w.token
    → lookup a w.token.accounts ≡ some b
    → IsValid (unregistered env a b w).token
unregistered-IsValid env a b w v e = record {
  distinct = erase-Distinct a w.token.accounts v.distinct;
  supply = omega (arith, sum-erase a b w.token.accounts e, v.supply);
  bounded = omega (arith, v.bounded);
}

pub internal_storage_unregister-Preserves :
    (env : Env) (force : Option Bool) → Preserves (internal_storage_unregister env force)
unfolding internal_storage_unregister
internal_storage_unregister-Preserves env force w v =
    elim (Option-cases (lookup env.predecessor_account_id w.token.accounts)) [
      | inl gone ↦ ground arith
      | inr (b, e) ↦ ground (
        arith,
        unregister_found_done env env.predecessor_account_id b w v e,
        unregistered-IsValid env env.predecessor_account_id b w v e,
      )
    ]

pub storage_unregister-Preserves :
    (env : Env) (force : Option Bool) → Preserves (storage_unregister env force)
unfolding storage_unregister
storage_unregister-Preserves env force w v =
    ground (arith, internal_storage_unregister-Preserves env force w v)

pub deposit_again-Preserves : (env : Env) → Preserves (deposit_again env)
unfolding deposit_again
deposit_again-Preserves env w v = ground arith

pub deposit_new-Preserves : (env : Env) (a : AccountId) → Preserves (deposit_new env a)
unfolding deposit_new
deposit_new-Preserves env a w v = grind (arith, register-Preserves)

deposit_for-Preserves : (env : Env) (a : AccountId) → Preserves (deposit_for env a)
unfolding deposit_for
deposit_for-Preserves env a w v =
    ground (arith, deposit_again-Preserves env w v, deposit_new-Preserves env a w v)

pub storage_deposit-Preserves :
    (env : Env) (a : Option AccountId) (only : Option Bool) → Preserves (storage_deposit env a only)
unfolding storage_deposit
storage_deposit-Preserves env a only w v =
    ground (arith, deposit_for-Preserves env (beneficiary env a) w v)

pub storage_withdraw-Preserves :
    (env : Env) (amount : Option ℕ) → Preserves (storage_withdraw env amount)
unfolding storage_withdraw
storage_withdraw-Preserves env amount w v = ground arith

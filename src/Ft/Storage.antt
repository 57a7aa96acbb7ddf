-- ===== src/Ft/Storage.antt =====
-- Registration of accounts against a storage deposit
-- (near-contract-standards/src/fungible_token/storage_impl.rs, storage_management/mod.rs).
use near_runtime_rs.Base.{
  ℕ, ◌+◌, ◌-◌, ◌*◌, Bool, true, false, Option, none, some, ◌==◌, ◌||◌, ltb, leb, min, if◌then◌else◌,
  u128_size, pure, fail, gets, or_panic, modify, require, ◌>>=◌, ◌>>◌,
}
use near_runtime_rs.Base.Dict.{nat_key, lookup, contains, erase}
use near_runtime_rs.Ft.State.{
  AccountId, Balance, FungibleToken, Panic, World, Env, Call, set_accounts, set_total, emit,
}
use near_runtime_rs.Ft.State
use near_runtime_rs.Ft.Core.{checked_sub, assert_one_yocto, internal_register_account}

pub record StorageBalance : Type 0 where
  pub total : ℕ
  pub available : ℕ

pub record StorageBalanceBounds : Type 0 where
  pub min : ℕ
  pub max : Option ℕ

-- `NearToken` arithmetic that stops at `u128::MAX`.
abbrev pub saturating_add : ℕ → ℕ → ℕ
saturating_add a b = min (a + b) (u128_size - 1)

abbrev pub saturating_mul : ℕ → ℕ → ℕ
saturating_mul a b = min (a * b) (u128_size - 1)

unfoldable pub storage_balance_bounds : Env → FungibleToken → StorageBalanceBounds
storage_balance_bounds env t =
    let required = saturating_mul env.storage_byte_cost t.account_storage_usage in
    record { min = required; max = some required }

unfoldable pub internal_storage_balance_of : Env → FungibleToken → AccountId → Option StorageBalance
internal_storage_balance_of env t account_id =
    if contains account_id t.accounts
    then some (record { total = (storage_balance_bounds env t).min; available = 0 })
    else none

unfoldable pub storage_balance_of : Env → FungibleToken → AccountId → Option StorageBalance
unfolding internal_storage_balance_of
storage_balance_of = internal_storage_balance_of

-- `self.total_supply -= balance`, with the overflow checks of the build profile.
unfoldable pub unregister_found : Env → AccountId → Balance → Call (Option (AccountId × Balance))
unregister_found env account_id balance = do
  modify (λ w. set_accounts (erase account_id w.token.accounts) w)
  total ← gets (λ w. w.token.total_supply)
  new_total ← or_panic (checked_sub total balance) Panic.arithmetic_overflow
  modify (set_total new_total)
  minimum ← gets (λ w. (storage_balance_bounds env w.token).min)
  modify (emit (State.Effect.transfer_near account_id (saturating_add minimum 1)))
  pure (some (account_id, balance))

unfoldable pub internal_storage_unregister : Env → Option Bool → Call (Option (AccountId × Balance))
unfolding assert_one_yocto unregister_found
internal_storage_unregister env force = do
  assert_one_yocto env
  let account_id = env.predecessor_account_id
  let forced : Bool = elim force [ some b ↦ b | none ↦ false ]
  found ← gets (λ w. lookup account_id w.token.accounts)
  elim found [
    | some balance ↦
        if balance == 0 || forced
        then unregister_found env account_id balance
        else fail Panic.positive_balance_without_force
    | none ↦ do
      modify (emit (State.Effect.log_about "The account {} is not registered" account_id))
      pure none
  ]

unfoldable pub storage_unregister : Env → Option Bool → Call Bool
storage_unregister env force = do
  removed ← internal_storage_unregister env force
  pure (elim removed [ some _ ↦ true | none ↦ false ])

-- `if amount > 0 { Promise::new(to).transfer(amount) }`
abbrev refund_to : AccountId → ℕ → Call (Unit {0})
refund_to to amount =
    if ltb 0 amount then modify (emit (State.Effect.transfer_near to amount)) else pure tt

-- The branch of `storage_deposit` for an account that is registered already.
unfoldable pub deposit_again : Env → Call (Unit {0})
deposit_again env = do
  modify (emit (State.Effect.log "The account is already registered, refunding the deposit"))
  refund_to env.predecessor_account_id env.attached_deposit

-- The branch of `storage_deposit` for an account that is not registered yet.
unfoldable pub deposit_new : Env → AccountId → Call (Unit {0})
unfolding internal_register_account
deposit_new env account_id = do
  min_balance ← gets (λ w. (storage_balance_bounds env w.token).min)
  require (leb min_balance env.attached_deposit) Panic.deposit_too_small
  internal_register_account account_id
  refund_to env.predecessor_account_id (env.attached_deposit - min_balance)

-- The account that a deposit is for.
abbrev pub beneficiary : Env → Option AccountId → AccountId
beneficiary env (some a) = a
beneficiary env none = env.predecessor_account_id

unfoldable pub deposit_for : Env → AccountId → Call (Unit {0})
deposit_for env account_id = do
  registered ← gets (λ w. contains account_id w.token.accounts)
  (if registered then deposit_again env else deposit_new env account_id)

unfoldable pub storage_deposit : Env → Option AccountId → Option Bool → Call StorageBalance
unfolding internal_storage_balance_of
storage_deposit env account registration_only = do
  let account_id = beneficiary env account
  deposit_for env account_id
  balance ← gets (λ w. internal_storage_balance_of env w.token account_id)
  or_panic balance Panic.unwrap_on_none

unfoldable pub storage_withdraw : Env → Option ℕ → Call StorageBalance
unfolding assert_one_yocto internal_storage_balance_of
storage_withdraw env amount = do
  assert_one_yocto env
  balance ← gets (λ w. internal_storage_balance_of env w.token env.predecessor_account_id)
  elim balance [
    | some storage_balance ↦ elim amount [
      | some a ↦ if ltb 0 a then fail Panic.above_available else pure storage_balance
      | none ↦ pure storage_balance
    ]
    | none ↦ fail (Panic.not_registered env.predecessor_account_id)
  ]

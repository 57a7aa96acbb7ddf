-- ===== src/Ft/Core.antt =====
-- Balances and transfers (near-contract-standards/src/fungible_token/core_impl.rs).
use near_runtime_rs.Base.{
  ℕ, ◌+◌, ◌-◌, Option, none, some, [], ◌==◌, ltb, leb, not, if◌then◌else◌, u128_size, Outcome, done,
  panic, pure, fail, gets, or_panic, modify, require, ◌>>=◌, ◌>>◌,
}
use near_runtime_rs.Base.Dict.{Dict, nat_key, lookup, insert, erase}
use near_runtime_rs.Ft.State.{
  AccountId, Balance, FungibleToken, Panic, World, Env, Call, set_accounts, set_total, emit,
  gas_for_resolve_transfer, gas_for_ft_transfer_call,
}
use near_runtime_rs.Ft.State
use Prim.Native.String.{String}

-- `u128::checked_add` and `u128::checked_sub`.
abbrev pub checked_add : ℕ → ℕ → Option ℕ
checked_add a b = if ltb (a + b) u128_size then some (a + b) else none

abbrev pub checked_sub : ℕ → ℕ → Option ℕ
checked_sub a b = if leb b a then some (a - b) else none

unfoldable pub internal_unwrap_balance_of : AccountId → Call Balance
internal_unwrap_balance_of account_id = do
  or_panic (← gets (λ w. lookup account_id w.token.accounts)) (Panic.not_registered account_id)

unfoldable pub internal_deposit : AccountId → Balance → Call (Unit {0})
unfolding internal_unwrap_balance_of
internal_deposit account_id amount = do
  balance ← internal_unwrap_balance_of account_id
  new_balance ← or_panic (checked_add balance amount) Panic.balance_overflow
  modify (λ w. set_accounts (insert account_id new_balance w.token.accounts) w)
  total ← gets (λ w. w.token.total_supply)
  new_total ← or_panic (checked_add total amount) Panic.total_supply_overflow
  modify (set_total new_total)

unfoldable pub internal_withdraw : AccountId → Balance → Call (Unit {0})
unfolding internal_unwrap_balance_of
internal_withdraw account_id amount = do
  balance ← internal_unwrap_balance_of account_id
  new_balance ← or_panic (checked_sub balance amount) Panic.not_enough_balance
  modify (λ w. set_accounts (insert account_id new_balance w.token.accounts) w)
  total ← gets (λ w. w.token.total_supply)
  new_total ← or_panic (checked_sub total amount) Panic.total_supply_overflow
  modify (set_total new_total)

unfoldable pub internal_transfer : AccountId → AccountId → Balance → Option String → Call (Unit {0})
internal_transfer sender_id receiver_id amount memo = do
  require (not (sender_id == receiver_id)) Panic.same_account
  require (ltb 0 amount) Panic.amount_not_positive
  internal_withdraw sender_id amount
  internal_deposit receiver_id amount
  modify (emit (State.Effect.ft_transfer_event sender_id receiver_id amount memo))

unfoldable pub internal_register_account : AccountId → Call (Unit {0})
internal_register_account account_id = do
  previous ← gets (λ w. lookup account_id w.token.accounts)
  modify (λ w. set_accounts (insert account_id 0 w.token.accounts) w)
  elim previous [ some _ ↦ fail Panic.already_registered | none ↦ pure tt ]

-- `near_sdk::assert_one_yocto`
unfoldable pub assert_one_yocto : Env → Call (Unit {0})
assert_one_yocto env = require (env.attached_deposit == 1) Panic.one_yocto_required

unfoldable pub ft_transfer : Env → AccountId → Balance → Option String → Call (Unit {0})
unfolding assert_one_yocto
ft_transfer env receiver_id amount memo = do
  assert_one_yocto env
  internal_transfer env.predecessor_account_id receiver_id amount memo

-- The two calls that `ft_transfer_call` schedules: `ft_on_transfer` on the receiver, and then
-- `ft_resolve_transfer` on the token itself.
pub record TransferCall : Type 0 where
  pub receiver_id : AccountId
  pub receiver_gas : ℕ
  pub sender_id : AccountId
  pub amount : Balance
  pub msg : String
  pub resolver_id : AccountId
  pub resolver_gas : ℕ

unfoldable pub ft_transfer_call :
    Env → AccountId → Balance → Option String → String → Call TransferCall
unfolding assert_one_yocto
ft_transfer_call env receiver_id amount memo msg = do
  assert_one_yocto env
  require (ltb gas_for_ft_transfer_call env.prepaid_gas) Panic.more_gas_required
  internal_transfer env.predecessor_account_id receiver_id amount memo
  receiver_gas ←
      or_panic (checked_sub env.prepaid_gas gas_for_ft_transfer_call) Panic.prepaid_gas_overflow
  pure (record {
    receiver_id = receiver_id;
    receiver_gas = receiver_gas;
    sender_id = env.predecessor_account_id;
    amount = amount;
    msg = msg;
    resolver_id = env.current_account_id;
    resolver_gas = gas_for_resolve_transfer;
  })

unfoldable pub ft_total_supply : FungibleToken → Balance
ft_total_supply t = t.total_supply

unfoldable pub ft_balance_of : FungibleToken → AccountId → Balance
ft_balance_of t account_id = elim (lookup account_id t.accounts) [ some b ↦ b | none ↦ 0 ]

-- The storage in use is the host's answer, a function of what the map holds; the account id of 64
-- letters is a parameter too.
module _ (storage_usage : Dict AccountId Balance → ℕ) (tmp_account_id : AccountId) where
  unfoldable pub measure_account_storage_usage : FungibleToken → Outcome Panic FungibleToken
  measure_account_storage_usage t =
      let initial = storage_usage t.accounts in
      let inserted = insert tmp_account_id 0 t.accounts in
      if leb initial (storage_usage inserted)
      then done (record t {
        accounts = erase tmp_account_id inserted;
        account_storage_usage = storage_usage inserted - initial;
      })
      else panic Panic.arithmetic_overflow

  unfoldable pub new : Outcome Panic FungibleToken
  unfolding measure_account_storage_usage
  new =
      measure_account_storage_usage
        (record { accounts = []; total_supply = 0; account_storage_usage = 0 })

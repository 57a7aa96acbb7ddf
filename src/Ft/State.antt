-- ===== src/Ft/State.antt =====
-- The state of the fungible token, what a call reads of the host, and what it asks the host to do
-- (near-contract-standards/src/fungible_token/core_impl.rs).
use near_runtime_rs.Base.{ℕ, Option, List, [], ◌∷◌, Action, ◌*◌, ◌^◌, ◌++◌}
use near_runtime_rs.Base.Dict.{Dict}
use Prim.Native.String.{String}

-- Account ids are only compared and stored, so they are numbered.
abbrev pub AccountId : Type 0
AccountId = ℕ

-- `pub type Balance = u128`
abbrev pub Balance : Type 0
Balance = ℕ

pub record FungibleToken : Type 0 where
  pub accounts : Dict AccountId Balance
  pub total_supply : Balance
  pub account_storage_usage : ℕ

pub data Panic : Type 0 where
  not_registered : AccountId → Panic
  already_registered balance_overflow total_supply_overflow not_enough_balance : Panic
  same_account amount_not_positive one_yocto_required : Panic
  more_gas_required prepaid_gas_overflow : Panic
  receiver_not_enough_balance sender_balance_overflow : Panic
  positive_balance_without_force deposit_too_small above_available : Panic
  arithmetic_overflow unwrap_on_none : Panic

-- Events, logs (of a text, or of one with an account id in place of its `{}`), and promises of a
-- plain transfer of yoctoNEAR.
pub data Effect : Type 0 where
  ft_transfer_event : AccountId → AccountId → Balance → Option String → Effect
  ft_burn_event : AccountId → Balance → Option String → Effect
  log : String → Effect
  log_about : String → AccountId → Effect
  transfer_near : AccountId → ℕ → Effect

-- The contract's state with the effects of the call so far, oldest first.
pub record World : Type 0 where
  pub token : FungibleToken
  pub effects : List Effect

-- What `near_sdk::env` answers during the call.
pub record Env : Type 0 where
  pub predecessor_account_id : AccountId
  pub current_account_id : AccountId
  pub attached_deposit : ℕ
  pub prepaid_gas : ℕ
  pub storage_byte_cost : ℕ

abbrev pub Call : Type 0 → Type 0
Call A = Action Panic World A

abbrev pub set_accounts : Dict AccountId Balance → World → World
set_accounts d w = record w { token = record (w.token) { accounts = d } }

abbrev pub set_total : Balance → World → World
set_total n w = record w { token = record (w.token) { total_supply = n } }

abbrev pub emit : Effect → World → World
emit e w = record w { effects = w.effects ++ (e ∷ []) }

abbrev pub one_tgas : ℕ
one_tgas = 10 ^ 12

abbrev pub gas_for_resolve_transfer : ℕ
gas_for_resolve_transfer = 5 * one_tgas

abbrev pub gas_for_ft_transfer_call : ℕ
gas_for_ft_transfer_call = 30 * one_tgas

-- ===== src/Ft/Tests.antt =====
-- The token at concrete inputs (near-contract-standards/src/fungible_token/core_impl.rs and
-- storage_impl.rs).
use near_runtime_rs.Base.{
  ℕ, ◌+◌, ◌≤◌, ◌<◌, ◌≡◌, ◌≢◌, true, Option, none, some, List, [], ◌∷◌, done, refl, arith,
  ℕ_discrete, ◌-◌, ◌⊎◌, ◌==◌, if◌then◌else◌,
}
use near_runtime_rs.Base.Dict.{nat_key, lookup, insert, sum}
use near_runtime_rs.Ft.State.{AccountId, Balance, FungibleToken, World, Env}
use near_runtime_rs.Ft.Core.{
  internal_transfer, ft_balance_of, ft_transfer, internal_withdraw, internal_deposit,
}
use near_runtime_rs.Ft.Resolve.{
  successful, failed, unused_amount, internal_ft_resolve_transfer, ft_resolve_transfer,
  resolve_unused,
}
use near_runtime_rs.Ft.Storage.{
  storage_balance_bounds, storage_deposit, internal_storage_unregister, storage_unregister,
}
use near_runtime_rs.Ft.Invariant.{IsValid}
use near_runtime_rs.Ft.Transfer.{transferred, transfer_done, transfer_inv}
use near_runtime_rs.Ft.Settlement.{Settled, refund_of, resolve_settles}
use near_runtime_rs.Ft.TakeBack.{transfer_then_failed}
use near_runtime_rs.Ft.Registration.{unregistered, unregister_found_done}
use near_runtime_rs.Ft.Deposits.{paid_to, storage_deposit_new, unregister_inv}
use near_runtime_rs.Ft.Contract.{
  Request, transfer, resolve_transfer, unregister, perform, run, run-IsValid,
}
use near_runtime_rs.Ft.Spending.{perform_mono}

abbrev token : FungibleToken
token = record {
  accounts = (1, 100) ∷ (2, 5) ∷ [];
  total_supply = 105;
  account_storage_usage = 125;
}

abbrev world : World
world = record { token = token; effects = [] }

abbrev from : AccountId → ℕ → Env
from a deposit = record {
  predecessor_account_id = a;
  current_account_id = 0;
  attached_deposit = deposit;
  prepaid_gas = 100;
  storage_byte_cost = 10;
}

-- An answer of one byte is the amount that is not used.
abbrev first_byte : List ℕ → Option Balance
first_byte (b ∷ []) = some b
first_byte bytes = none

world-IsValid : IsValid token
unfolding sum ℕ_discrete
world-IsValid = record { distinct = (refl, (refl, tt)); supply = refl; bounded = omega arith }

lookup_1 : lookup 1 token.accounts ≡ some 100
unfolding ℕ_discrete
lookup_1 = refl

lookup_2 : lookup 2 token.accounts ≡ some 5
unfolding ℕ_discrete
lookup_2 = refl

lookup_3 : lookup 3 token.accounts ≡ none
unfolding ℕ_discrete
lookup_3 = refl

abbrev requests : List (Env × Request)
requests =
    (from 1 1, transfer 2 30 none)
    ∷ (from 2 1, transfer 1 99 none)
    ∷ (from 1 1, unregister (some true))
    ∷ (from 0 0, resolve_transfer failed 1 2 30)
    ∷ []

-- The second call panics, and the refund of the last is burned, for the sender is gone.
run-requests :
    ((run first_byte requests world).token.accounts ≡ (2, 5) ∷ [])
    × ((run first_byte requests world).token.total_supply ≡ 5)
unfolding run perform ft_transfer internal_transfer internal_withdraw internal_deposit ℕ_discrete
    ft_resolve_transfer internal_ft_resolve_transfer resolve_unused unused_amount storage_unregister
    internal_storage_unregister
run-requests = (refl, refl)

run-IsValid_example : IsValid (run first_byte requests world).token
run-IsValid_example = run-IsValid first_byte requests world world-IsValid

transfer_done_example :
    internal_transfer 1 2 30 none world ≡ done (tt, transferred 1 2 100 5 30 none world)
transfer_done_example =
    transfer_done 1 2 30 100 5 none world world-IsValid (omega arith) (omega arith) lookup_1
      lookup_2 (omega arith)

transfer_inv_example :
    (u v : Balance) × (lookup 1 world.token.accounts ≡ some u)
    × (lookup 2 world.token.accounts ≡ some v)
    × (◌≢◌ {A = ℕ} 1 2)
    × (0 < 30)
    × (30 ≤ u)
    × (transferred 1 2 100 5 30 none world ≡ transferred 1 2 u v 30 none world)
transfer_inv_example =
    transfer_inv 1 2 30 none world (transferred 1 2 100 5 30 none world) transfer_done_example

resolve_settles_example :
    (used b : Balance) × (t : World) × (internal_ft_resolve_transfer first_byte
        (successful (3 ∷ []))
        1
        2
        30
        world
      ≡ done ((used, b), t))
    × Settled 1 2 30
        (refund_of 2 (unused_amount first_byte (successful (3 ∷ [])) 30) world)
        world
        t
        used
        b
resolve_settles_example =
    resolve_settles first_byte (successful (3 ∷ [])) 1 2 30 world world-IsValid

transfer_then_failed_example :
    (w' t : World) × (internal_transfer 1 2 30 none world ≡ done (tt, w'))
    × (internal_ft_resolve_transfer first_byte failed 1 2 30 w' ≡ done ((0, 0), t))
    × ((a : AccountId) → lookup a t.token.accounts ≡ lookup a world.token.accounts)
    × (t.token.total_supply ≡ world.token.total_supply)
transfer_then_failed_example =
    transfer_then_failed first_byte 1 2 30 100 5 none world world-IsValid (omega arith)
      (omega arith) lookup_1 lookup_2 (omega arith)

storage_deposit_new_example :
    (t : World) × (storage_deposit (from 3 5000) none none world
      ≡ done
          (record { total = (storage_balance_bounds (from 3 5000) token).min; available = 0 }, t))
    × (t.token.accounts ≡ insert 3 0 token.accounts)
    × (t.token.total_supply ≡ 105)
    × ((c : AccountId)
        → paid_to c t.effects
          ≡ 0 + (if 3 == c then 5000 - (storage_balance_bounds (from 3 5000) token).min else 0))
unfolding storage_balance_bounds
storage_deposit_new_example =
    storage_deposit_new (from 3 5000) none none world lookup_3 (omega arith)

unregistered_2 :
    internal_storage_unregister (from 2 1) (some true) world
    ≡ done (some (2, 5), unregistered (from 2 1) 2 5 world)
unfolding internal_storage_unregister ℕ_discrete
unregistered_2 = unregister_found_done (from 2 1) 2 5 world world-IsValid lookup_2

unregister_inv_example :
    (lookup 2 (unregistered (from 2 1) 2 5 world).token.accounts ≡ some 5)
    ⊎ ((◌≡◌ {A = ℕ} 2 2)
        × (◌≡◌ {A = ℕ} 1 1)
        × ((◌≡◌ {A = ℕ} 5 0) ⊎ (some true ≡ some true))
        × (◌≡◌ {A = Option (AccountId × Balance)} (some (2, 5)) (some (2, 5))))
unregister_inv_example =
    unregister_inv (from 2 1) (some true) world 2 5 world-IsValid unregistered_2 lookup_2

perform_mono_example :
    ft_balance_of token 2 ≤ ft_balance_of (transferred 1 2 100 5 30 none world).token 2
unfolding perform ft_transfer
perform_mono_example =
    perform_mono first_byte 2 (from 1 1) (transfer 2 30 none) world
      (transferred 1 2 100 5 30 none world) world-IsValid (omega arith) (λ h. h)
      (ground (arith, transfer_done_example))

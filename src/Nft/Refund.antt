-- ===== src/Nft/Refund.antt =====
-- Payment for storage (near-contract-standards/src/non_fungible_token/utils.rs). The length of an
-- account id's name is a parameter, since account ids are numbered.
use near_runtime_rs.Base.{
  ℕ, ◌+◌, ◌-◌, ◌*◌, List, [], ◌∷◌, map, ltb, leb, if◌then◌else◌, u64_size, u128_size, min, pure,
  modify, require, ◌>>◌,
}
use near_runtime_rs.Base.Dict.{Dict}
use near_runtime_rs.Nft.State
use near_runtime_rs.Nft.State.{AccountId, Panic, Env, Call, emit}

-- `NearToken::saturating_mul`
abbrev pub saturating_mul : ℕ → ℕ → ℕ
saturating_mul a b = min (a * b) (u128_size - 1)

-- `assert_at_least_one_yocto`
unfoldable pub assert_at_least_one_yocto : Env → Call (Unit {0})
assert_at_least_one_yocto env = require (leb 1 env.attached_deposit) Panic.deposit_required

unfoldable pub refund_deposit_to_account : Env → ℕ → AccountId → Call (Unit {0})
refund_deposit_to_account env storage_used account_id = do
  let required_cost : ℕ = saturating_mul env.storage_byte_cost storage_used
  require (leb required_cost env.attached_deposit) Panic.deposit_too_small
  let refund : ℕ = env.attached_deposit - required_cost
  (if ltb 1 refund then modify (emit (State.Effect.transfer_near account_id refund)) else pure tt)

unfoldable pub refund_deposit : Env → ℕ → Call (Unit {0})
unfolding refund_deposit_to_account
refund_deposit env storage_used =
    refund_deposit_to_account env storage_used env.predecessor_account_id

module _ (name_length : AccountId → ℕ) where
  unfoldable pub bytes_for_approved_account_id : AccountId → ℕ
  bytes_for_approved_account_id account_id = name_length account_id + 4 + 8

  unfoldable pub bytes_for_approved_account_ids : List AccountId → ℕ
  bytes_for_approved_account_ids [] = 0
  bytes_for_approved_account_ids (a ∷ ids) =
      bytes_for_approved_account_id a + bytes_for_approved_account_ids ids

  unfoldable pub refund_approved_account_ids_iter :
      Env → AccountId → List AccountId → Call (Unit {0})
  unfolding bytes_for_approved_account_ids
  refund_approved_account_ids_iter env account_id approved_account_ids = do
    let storage_released : ℕ = bytes_for_approved_account_ids approved_account_ids
    require (ltb storage_released u64_size) Panic.arithmetic_overflow
    modify (
        emit (
          State.Effect.transfer_near account_id
            (saturating_mul env.storage_byte_cost storage_released)))

  unfoldable pub refund_approved_account_ids : Env → AccountId → Dict AccountId ℕ → Call (Unit {0})
  unfolding refund_approved_account_ids_iter
  refund_approved_account_ids env account_id approved_account_ids =
      refund_approved_account_ids_iter env account_id (map (λ e. e.0) approved_account_ids)

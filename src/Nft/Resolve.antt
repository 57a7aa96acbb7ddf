-- ===== src/Nft/Resolve.antt =====
-- The callback of `nft_transfer_call`: an unwanted token goes back
-- (near-contract-standards/src/non_fungible_token/core/core_impl.rs).
use near_runtime_rs.Base.{
  ℕ, Bool, true, false, Option, none, some, List, ◌==◌, if◌then◌else◌, pure, gets, modify, ◌>>=◌,
  ◌>>◌,
}
use near_runtime_rs.Base.Dict.{Dict, nat_key, lookup, insert, erase}
use near_runtime_rs.Nft.State.{AccountId, TokenId, Env, Call, set_approvals}
use near_runtime_rs.Nft.Core.{internal_transfer_unguarded, emit_transfer}
use near_runtime_rs.Nft.Refund.{refund_approved_account_ids}

pub data PromiseResult : Type 0 where
  successful : List ℕ → PromiseResult
  failed : PromiseResult

-- Reading the receiver's answer as a JSON Boolean is the work of `serde_json`.
module _ (from_slice : List ℕ → Option Bool) where
  unfoldable pub must_revert : PromiseResult → Bool
  must_revert (successful value) = elim (from_slice value) [ some b ↦ b | none ↦ true ]
  must_revert failed = true

abbrev pub restored :
    TokenId
    → Option (Dict AccountId ℕ)
    → Dict TokenId (Dict AccountId ℕ)
    → Dict TokenId (Dict AccountId ℕ)
restored token_id none by_id = by_id
restored token_id (some previous) by_id = insert token_id previous by_id

module _ (name_length : AccountId → ℕ) where
  abbrev pub refund_if_any : Env → AccountId → Option (Dict AccountId ℕ) → Call (Unit {0})
  refund_if_any env account_id none = pure tt
  refund_if_any env account_id (some approved) =
      refund_approved_account_ids name_length env account_id approved

  -- The receiver's approvals are paid back, and those of the previous owner are set again.
  unfoldable pub restore_approvals :
      Env → AccountId → TokenId → Option (Dict AccountId ℕ) → Call (Unit {0})
  restore_approvals env receiver_id token_id approved = do
    by_id ← gets (λ w. w.token.approvals_by_id)
    elim by_id [
      | none ↦ pure tt
      | some approvals ↦ do
        modify (set_approvals (erase token_id approvals))
        refund_if_any env receiver_id (lookup token_id approvals)
        modify (set_approvals (restored token_id approved (erase token_id approvals)))
    ]

  unfoldable pub give_back :
      Env → AccountId → AccountId → TokenId → Option (Dict AccountId ℕ) → Call Bool
  give_back env previous_owner_id receiver_id token_id approved = do
    internal_transfer_unguarded token_id receiver_id previous_owner_id
    restore_approvals env receiver_id token_id approved
    emit_transfer receiver_id previous_owner_id token_id none none
    pure false

  unfoldable pub revert_transfer :
      Env → AccountId → AccountId → TokenId → Option (Dict AccountId ℕ) → Call Bool
  unfolding give_back
  revert_transfer env previous_owner_id receiver_id token_id approved = do
    owner ← gets (λ w. lookup token_id w.token.owner_by_id)
    elim owner [
      | some current_owner ↦
          if current_owner == receiver_id
          then give_back env previous_owner_id receiver_id token_id approved
          else pure true
      | none ↦ do refund_if_any env previous_owner_id approved; pure true
    ]

  unfoldable pub nft_resolve_transfer :
      (List ℕ → Option Bool)
      → Env
      → PromiseResult
      → AccountId
      → AccountId
      → TokenId
      → Option (Dict AccountId ℕ)
      → Call Bool
  nft_resolve_transfer from_slice env result previous_owner_id receiver_id token_id approved =
      if must_revert from_slice result
      then revert_transfer env previous_owner_id receiver_id token_id approved
      else pure true

-- ===== src/Nft/Tests.antt =====
-- The non-fungible token at concrete inputs: token 7 of account 1, with account 3 approved.
use near_runtime_rs.Base.{
  ℕ, ◌≡◌, ◌≢◌, true, false, Option, none, some, List, [], ◌∷◌, arith, refl, inr, done, Outcome,
  ℕ_discrete,
}
use near_runtime_rs.Base.Dict.{Dict, nat_key, lookup, insert}
use near_runtime_rs.Nft.State.{
  AccountId, TokenMetadata, NonFungibleToken, World, Env, Panic, nft_mint_event,
}
use near_runtime_rs.Nft.Core.{internal_transfer, nft_token}
use near_runtime_rs.Nft.Mint.{
  insert_token, mint, internal_mint, internal_mint_with_refund, refund_storage,
}
use near_runtime_rs.Nft.Refund.{
  refund_deposit, refund_deposit_to_account, assert_at_least_one_yocto,
  bytes_for_approved_account_id,
}
use near_runtime_rs.Nft.Approval.{ApproveCall, nft_approve, nft_is_approved, owned_approvals}
use near_runtime_rs.Nft.Resolve.{nft_resolve_transfer, failed}
use near_runtime_rs.Nft.Index.{owned}
use near_runtime_rs.Nft.Invariant.{IsValid, Enumerated}
use near_runtime_rs.Nft.Transfer.{
  Authorized, approvals_of, transferred, token_transfer_done, token_transfer_inv,
}
use near_runtime_rs.Nft.Preserves.{insert_token-IsValid, nft_transfer-IsValid}
use near_runtime_rs.Nft.Approved.{
  approved_world, record_approval-IsValid, transfer_clears_approvals,
}
use near_runtime_rs.Nft.Approve.{approve_inv}
use near_runtime_rs.Nft.Return.{transfer_then_returned}
use near_runtime_rs.Nft.Entered.{Minted, new_token}
use near_runtime_rs.Nft.Minted.{mint_inv}
use near_runtime_rs.Nft.State.{emit, set_approvals}
use near_runtime_rs.Nft.State
use near_runtime_rs.Nft.Core.{assert_one_yocto}
use near_runtime_rs.Nft.Refund.{
  refund_approved_account_ids, refund_approved_account_ids_iter, bytes_for_approved_account_ids,
}
use near_runtime_rs.Nft.Approval.{nft_revoke_all}
use near_runtime_rs.Nft.Revoke.{revoke_all_inv}

abbrev empty : NonFungibleToken
empty = record {
  owner_id = 1;
  extra_storage_in_bytes_per_token = 0;
  owner_by_id = [];
  token_metadata_by_id = none;
  tokens_per_owner = some [];
  approvals_by_id = some [];
  next_approval_id_by_id = some [];
}

empty-IsValid : IsValid empty
unfolding owned
empty-IsValid = record {
  enumerated = record { distinct = tt; counts = λ s a. refl };
  known = (tt, λ s ids e. cc);
  fresh = λ s ids a id e l. cc;
}

abbrev minted : World
minted = record { token = insert_token 7 1 none empty; effects = [] }

minted-IsValid : IsValid (minted.token)
minted-IsValid = insert_token-IsValid 7 1 none empty refl empty-IsValid

eb0 : minted.token.approvals_by_id ≡ some []
unfolding insert_token
eb0 = refl

en0 : minted.token.next_approval_id_by_id ≡ some []
unfolding insert_token
en0 = refl

eo0 : lookup 7 (minted.token.owner_by_id) ≡ some 1
unfolding insert_token ℕ_discrete
eo0 = refl

abbrev approved : World
approved = approved_world 7 3 minted eb0 en0 eo0

approved-IsValid : IsValid (approved.token)
approved-IsValid = record_approval-IsValid 7 3 minted eb0 en0 eo0 minted-IsValid

approval_example : Authorized 3 1 (approvals_of 7 (approved.token.approvals_by_id)) (some 1)
unfolding ℕ_discrete
approval_example = inr (((3, 1) ∷ []), 1, refl, refl, refl)

transfer_result :
    (listed : Option (Dict AccountId (List ℕ))) × (internal_transfer 3 5 7 (some 1) none approved
      ≡ done (
        (1, approvals_of 7 (approved.token.approvals_by_id)),
        transferred 7 1 5 none listed approved,
      ))
    × Enumerated (insert 7 5 (approved.token.owner_by_id)) listed
transfer_result =
    token_transfer_done 3 5 1 7 (some 1) none approved approved-IsValid eo0 approval_example
      (omega arith)

token_transfer_done_example :
    (listed : Option (Dict AccountId (List ℕ))) × (internal_transfer 3 5 7 (some 1) none approved
      ≡ done (
        (1, approvals_of 7 (approved.token.approvals_by_id)),
        transferred 7 1 5 none listed approved,
      ))
    × Enumerated (insert 7 5 (approved.token.owner_by_id)) listed
token_transfer_done_example =
    token_transfer_done 3 5 1 7 (some 1) none approved approved-IsValid eo0 approval_example
      (omega arith)

abbrev after : World
after = transferred 7 1 5 none (transfer_result.0) approved

token_transfer_inv_example :
    (owner : AccountId) × (lookup 7 (approved.token.owner_by_id) ≡ some owner)
    × Authorized 3 owner (approvals_of 7 (approved.token.approvals_by_id)) (some 1)
    × (owner ≢ 5)
token_transfer_inv_example = token_transfer_inv 3 5 7 (some 1) none approved (transfer_result.1)

nft_transfer-IsValid_example : IsValid (after.token)
nft_transfer-IsValid_example =
    nft_transfer-IsValid 3 5 7 (some 1) none approved approved-IsValid (transfer_result.1)

transfer_clears_approvals_example : nft_is_approved (after.token) 7 3 (some 1) ≡ done false
transfer_clears_approvals_example =
    transfer_clears_approvals 3 5 7 (some 1) none approved approved-IsValid (transfer_result.1) 3
      (some 1)

abbrev env : Env
env = record {
  predecessor_account_id = 1;
  current_account_id = 9;
  attached_deposit = 1;
  prepaid_gas = 0;
  storage_byte_cost = 0;
}

transfer_then_returned_example :
    (x : World) × (nft_resolve_transfer
        (λ _. 4)
        (λ _. none)
        env
        failed
        1
        5
        7
        (approvals_of 7 (approved.token.approvals_by_id))
        after
      ≡ done (false, x))
    × ((s : ℕ) → nft_token (x.token) s ≡ nft_token (approved.token) s)
transfer_then_returned_example =
    transfer_then_returned (λ _. 4) (λ _. none) env 3 5 1 7 (some 1) none approved approved-IsValid
      (transfer_result.1)

abbrev approve_output : Outcome Panic (Option ApproveCall × World)
approve_output = nft_approve (λ _. 4) env 7 3 none minted

approve_runs : approve_output ≡ done (none, approved)
unfolding nft_approve owned_approvals refund_deposit refund_deposit_to_account
    assert_at_least_one_yocto insert_token ℕ_discrete bytes_for_approved_account_id
approve_runs = refl

approve_inv_example :
    (lookup 7 (minted.token.owner_by_id) ≡ some 1)
    × IsValid (approved.token)
    × ((id : ℕ) × (nft_is_approved (approved.token) 7 3 (some id) ≡ done true))
approve_inv_example = approve_inv (λ _. 4) env 7 3 none minted minted-IsValid approve_runs

-- A contract that keeps metadata, before and after a mint.
abbrev keeping : NonFungibleToken
keeping = record empty { token_metadata_by_id = some [] }

keeping-IsValid : IsValid keeping
unfolding owned
keeping-IsValid = record {
  enumerated = record { distinct = tt; counts = λ s a. refl };
  known = (tt, λ s ids e. cc);
  fresh = λ s ids a id e l. cc;
}

abbrev start : World
start = record { token = keeping; effects = [] }

abbrev titled : TokenMetadata
titled = record {
  title = some "Seven";
  description = none;
  media = none;
  media_hash = none;
  copies = some 1;
  issued_at = none;
  expires_at = none;
  starts_at = none;
  updated_at = none;
  extra = none;
  reference = none;
  reference_hash = none;
}

abbrev titled_token : NonFungibleToken
titled_token = insert_token 7 1 (some titled) keeping

mint_runs :
    mint (λ _. 0) env 7 1 (some titled) start
    ≡ done (
      new_token 7 1 (some titled) (some []),
      record { token = titled_token; effects = nft_mint_event 1 7 ∷ [] },
    )
unfolding mint internal_mint internal_mint_with_refund refund_storage refund_deposit_to_account
    insert_token ℕ_discrete
mint_runs = refl

mint_inv_example :
    (env.predecessor_account_id ≡ keeping.owner_id)
    × (lookup 7 (keeping.owner_by_id) ≡ none)
    × Minted 7 1 (some titled) keeping (new_token 7 1 (some titled) (some [])) titled_token
mint_inv_example = mint_inv (λ _. 0) env 7 1 (some titled) start keeping-IsValid mint_runs

abbrev revoked : World
revoked = emit (State.Effect.transfer_near 1 0) (set_approvals [] approved)

revoke_all_runs : nft_revoke_all (λ _. 4) env 7 approved ≡ done (tt, revoked)
unfolding nft_revoke_all assert_one_yocto owned_approvals refund_approved_account_ids
    refund_approved_account_ids_iter bytes_for_approved_account_ids bytes_for_approved_account_id
    insert_token ℕ_discrete
revoke_all_runs = refl

revoke_all_inv_example :
    (lookup 7 (approved.token.owner_by_id) ≡ some 1)
    × IsValid (revoked.token)
    × ((a : ℕ) (id : Option ℕ) → nft_is_approved (revoked.token) 7 a id ≡ done false)
revoke_all_inv_example = revoke_all_inv (λ _. 4) env 7 approved approved-IsValid revoke_all_runs

-- ===== src/Nft/State.antt =====
-- The state of the non-fungible token, what a call reads of the host, and what it asks the host to
-- do (near-contract-standards/src/non_fungible_token/core/core_impl.rs, metadata.rs, token.rs).
use near_runtime_rs.Base.{ℕ, Option, some, List, [], ◌∷◌, Action, ◌*◌, ◌^◌, ◌++◌}
use near_runtime_rs.Base.Dict.{Dict}
use Prim.Native.String.{String}

-- Account ids and token ids are only compared and stored, so they are numbered.
abbrev pub AccountId : Type 0
AccountId = ℕ

abbrev pub TokenId : Type 0
TokenId = ℕ

pub record TokenMetadata : Type 0 where
  pub title : Option String
  pub description : Option String
  pub media : Option String
  pub media_hash : Option (List ℕ)
  pub copies : Option ℕ
  pub issued_at : Option String
  pub expires_at : Option String
  pub starts_at : Option String
  pub updated_at : Option String
  pub extra : Option String
  pub reference : Option String
  pub reference_hash : Option (List ℕ)

pub record Token : Type 0 where
  pub token_id : TokenId
  pub owner_id : AccountId
  pub metadata : Option TokenMetadata
  pub approved_account_ids : Option (Dict AccountId ℕ)

pub record NonFungibleToken : Type 0 where
  pub owner_id : AccountId
  pub extra_storage_in_bytes_per_token : ℕ
  pub owner_by_id : Dict TokenId AccountId
  pub token_metadata_by_id : Option (Dict TokenId TokenMetadata)
  pub tokens_per_owner : Option (Dict AccountId (List TokenId))
  pub approvals_by_id : Option (Dict TokenId (Dict AccountId ℕ))
  pub next_approval_id_by_id : Option (Dict TokenId ℕ)

pub data Panic : Type 0 where
  tokens_of_owner_missing token_not_found approval_extension_disabled sender_not_approved : Panic
  approval_id_differs same_owner unauthorized metadata_missing token_id_not_unique : Panic
  one_yocto_required deposit_required deposit_too_small more_gas_required : Panic
  no_approval_management next_approval_missing predecessor_not_owner : Panic
  no_enumeration limit_of_zero out_of_bounds arithmetic_overflow : Panic

-- Events, and promises of a plain transfer of yoctoNEAR.
pub data Effect : Type 0 where
  nft_transfer_event : AccountId → AccountId → TokenId → Option AccountId → Option String → Effect
  nft_mint_event : AccountId → TokenId → Effect
  transfer_near : AccountId → ℕ → Effect

-- The contract's state with the effects of the call so far, oldest first.
pub record World : Type 0 where
  pub token : NonFungibleToken
  pub effects : List Effect

-- What `near_sdk::env` answers during the call.
pub record Env : Type 0 where
  pub predecessor_account_id : AccountId
  pub current_account_id : AccountId
  pub attached_deposit : ℕ
  pub prepaid_gas : ℕ
  pub storage_byte_cost : ℕ

abbrev pub Call : Type 0 → Type 0
Call A = Action Panic World A

abbrev pub set_token : NonFungibleToken → World → World
set_token t w = record w { token = t }

abbrev pub set_approvals : Dict TokenId (Dict AccountId ℕ) → World → World
set_approvals d w = record w { token = record (w.token) { approvals_by_id = some d } }

abbrev pub emit : Effect → World → World
emit e w = record w { effects = w.effects ++ (e ∷ []) }

abbrev pub one_tgas : ℕ
one_tgas = 10 ^ 12

abbrev pub gas_for_resolve_transfer : ℕ
gas_for_resolve_transfer = 5 * one_tgas

abbrev pub gas_for_nft_transfer_call : ℕ
gas_for_nft_transfer_call = 30 * one_tgas

abbrev pub gas_for_nft_approve : ℕ
gas_for_nft_approve = 10 * one_tgas

-- ===== src/Nft/Mint.antt =====
-- Minting (near-contract-standards/src/non_fungible_token/core/core_impl.rs).
use near_runtime_rs.Base.{
  ℕ, ◌-◌, Option, none, some, List, [], ◌==◌, leb, not, ◌&&◌, pure, gets, modify, require, ◌>>=◌,
  ◌>>◌,
}
use near_runtime_rs.Base.Dict.{Dict, nat_key, lookup, insert, is_some}
use near_runtime_rs.Nft.State.{
  AccountId, TokenId, TokenMetadata, Token, NonFungibleToken, Panic, World, Env, Call, set_token,
  emit,
}
use near_runtime_rs.Nft.State
use near_runtime_rs.Nft.TokenSet.{add}
use near_runtime_rs.Nft.Core.{tokens_of}
use near_runtime_rs.Nft.Refund.{refund_deposit_to_account}

abbrev pub insert_metadata :
    TokenId
    → Option TokenMetadata
    → Option (Dict TokenId TokenMetadata)
    → Option (Dict TokenId TokenMetadata)
insert_metadata token_id none by_id = by_id
insert_metadata token_id (some metadata) none = none
insert_metadata token_id (some metadata) (some by_id) = some (insert token_id metadata by_id)

abbrev pub list_token :
    TokenId
    → AccountId
    → Option (Dict AccountId (List TokenId))
    → Option (Dict AccountId (List TokenId))
list_token token_id owner_id none = none
list_token token_id owner_id (some listed) =
    some (insert owner_id (add token_id (tokens_of owner_id listed)) listed)

-- The tables with the new token in them.
unfoldable pub insert_token :
    TokenId → AccountId → Option TokenMetadata → NonFungibleToken → NonFungibleToken
insert_token token_id owner_id metadata t = record t {
  owner_by_id = insert token_id owner_id t.owner_by_id;
  token_metadata_by_id = insert_metadata token_id metadata t.token_metadata_by_id;
  tokens_per_owner = list_token token_id owner_id t.tokens_per_owner;
}

-- The storage in use is the host's answer, a function of what the tables hold.
module _ (storage_usage : NonFungibleToken → ℕ) where
  unfoldable pub refund_storage : Env → ℕ → Option AccountId → Call (Unit {0})
  refund_storage env initial none = pure tt
  refund_storage env initial (some id) = do
    usage ← gets (λ w. storage_usage w.token)
    require (leb initial usage) Panic.arithmetic_overflow
    refund_deposit_to_account env (usage - initial) id

  unfoldable pub internal_mint_with_refund :
      Env → TokenId → AccountId → Option TokenMetadata → Option AccountId → Call Token
  unfolding insert_token refund_storage
  internal_mint_with_refund env token_id token_owner_id token_metadata refund_id = do
    initial ← gets (λ w. storage_usage w.token)
    t ← gets (λ w. w.token)
    require (not (is_some t.token_metadata_by_id && not (is_some token_metadata)))
        Panic.metadata_missing
    require (not (is_some (lookup token_id t.owner_by_id))) Panic.token_id_not_unique
    modify (set_token (insert_token token_id token_owner_id token_metadata t))
    refund_storage env initial refund_id
    pure (record {
      token_id = token_id;
      owner_id = token_owner_id;
      metadata = token_metadata;
      approved_account_ids = elim (t.approvals_by_id) [ none ↦ none | some _ ↦ some [] ];
    })

  unfoldable pub internal_mint : Env → TokenId → AccountId → Option TokenMetadata → Call Token
  internal_mint env token_id token_owner_id token_metadata = do
    token ←
        internal_mint_with_refund env token_id token_owner_id token_metadata
          (some env.predecessor_account_id)
    modify (emit (State.Effect.nft_mint_event token.owner_id token.token_id))
    pure token

  unfoldable pub mint : Env → TokenId → AccountId → Option TokenMetadata → Call Token
  unfolding internal_mint
  mint env token_id token_owner_id token_metadata = do
    owner ← gets (λ w. w.token.owner_id)
    require (env.predecessor_account_id == owner) Panic.unauthorized
    internal_mint env token_id token_owner_id token_metadata

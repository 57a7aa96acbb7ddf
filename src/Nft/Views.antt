-- ===== src/Nft/Views.antt =====
-- The enumeration of tokens
-- (near-contract-standards/src/non_fungible_token/enumeration/enumeration_impl.rs). A `usize` is
-- that of wasm32.
use near_runtime_rs.Base.{
  ℕ, ◌-◌, ◌%◌, Option, none, some, List, [], map, ◌==◌, ltb, if◌then◌else◌, u32_size, Outcome, done,
  panic, length, take, drop,
}
use near_runtime_rs.Base.Dict.{nat_key, lookup}
use near_runtime_rs.Nft.State.{AccountId, TokenId, Token, NonFungibleToken, Panic}
use near_runtime_rs.Nft.TokenSet.{is_empty}
use near_runtime_rs.Nft.Core.{or_else}

unfoldable pub enum_get_token : NonFungibleToken → AccountId → TokenId → Token
enum_get_token t owner_id token_id = record {
  token_id = token_id;
  owner_id = owner_id;
  metadata = elim (t.token_metadata_by_id) [ none ↦ none | some by_id ↦ lookup token_id by_id ];
  approved_account_ids = elim (t.approvals_by_id) [
    | none ↦ none
    | some by_id ↦ some (or_else [] (lookup token_id by_id))
  ];
}

unfoldable pub nft_total_supply : NonFungibleToken → ℕ
nft_total_supply t = length (t.owner_by_id)

unfoldable pub nft_supply_for_owner : NonFungibleToken → AccountId → Outcome Panic ℕ
nft_supply_for_owner t account_id = elim (t.tokens_per_owner) [
  | none ↦ panic Panic.no_enumeration
  | some listed ↦ elim (lookup account_id listed) [
    | none ↦ done 0
    | some account_tokens ↦ done (length account_tokens)
  ]
]

-- `limit.map(|v| v as usize).unwrap_or(usize::MAX)`
abbrev pub limit_or_max : Option ℕ → ℕ
limit_or_max none = u32_size - 1
limit_or_max (some v) = v % u32_size

-- One page of an owner's tokens, which are not none.
unfoldable pub page_of :
    NonFungibleToken → AccountId → List TokenId → Option ℕ → Option ℕ → Outcome Panic (List Token)
page_of t account_id token_set from_index limit =
    let start = or_else 0 from_index in
    if limit_or_max limit == 0
    then panic Panic.limit_of_zero
    else (if ltb start (length token_set)
        then done (
            map (enum_get_token t account_id)
              (take (limit_or_max limit) (drop (start % u32_size) token_set)))
        else panic Panic.out_of_bounds)

unfoldable pub nft_tokens_for_owner :
    NonFungibleToken → AccountId → Option ℕ → Option ℕ → Outcome Panic (List Token)
unfolding page_of
nft_tokens_for_owner t account_id from_index limit = elim (t.tokens_per_owner) [
  | none ↦ panic Panic.no_enumeration
  | some listed ↦ elim (lookup account_id listed) [
    | none ↦ done []
    | some token_set ↦
        if is_empty token_set then done [] else page_of t account_id token_set from_index limit
  ]
]

-- ===== src/Nft/Init.antt =====
-- The token of a new contract
-- (near-contract-standards/src/non_fungible_token/core/core_impl.rs). The prefixes of the tables
-- only say which tables there are.
use near_runtime_rs.Base.{
  ℕ, ◌-◌, Bool, true, false, Option, none, some, [], ◌∷◌, leb, if◌then◌else◌, Outcome, done, panic,
}
use near_runtime_rs.Base.Dict.{Dict, nat_key, insert, erase}
use near_runtime_rs.Nft.State.{AccountId, TokenId, TokenMetadata, NonFungibleToken, Panic}

abbrev pub insert_into : {V : Type 0} → ℕ → V → Option (Dict ℕ V) → Option (Dict ℕ V)
insert_into k v none = none
insert_into k v (some table) = some (insert k v table)

abbrev pub erase_from : {V : Type 0} → ℕ → Option (Dict ℕ V) → Option (Dict ℕ V)
erase_from k none = none
erase_from k (some table) = some (erase k table)

abbrev pub empty_if : {V : Type 0} → Bool → Option (Dict ℕ V)
empty_if true = some []
empty_if false = none

-- The ids and the metadata of 64 letters, and the storage in use as a function of the tables.
module _ (storage_usage : NonFungibleToken → ℕ) (tmp_token_id : TokenId) (tmp_owner_id : AccountId)
    (tmp_metadata : TokenMetadata) where
  unfoldable pub set_dummy : NonFungibleToken → NonFungibleToken
  set_dummy t = record t {
    owner_by_id = insert tmp_token_id tmp_owner_id t.owner_by_id;
    token_metadata_by_id = insert_into tmp_token_id tmp_metadata t.token_metadata_by_id;
    tokens_per_owner = insert_into tmp_owner_id (tmp_token_id ∷ []) t.tokens_per_owner;
    approvals_by_id = insert_into tmp_token_id ((tmp_owner_id, 1) ∷ []) t.approvals_by_id;
    next_approval_id_by_id = insert_into tmp_token_id 1 t.next_approval_id_by_id;
  }

  unfoldable pub roll_back : NonFungibleToken → NonFungibleToken
  roll_back t = record t {
    owner_by_id = erase tmp_token_id t.owner_by_id;
    token_metadata_by_id = erase_from tmp_token_id t.token_metadata_by_id;
    tokens_per_owner = erase_from tmp_owner_id t.tokens_per_owner;
    approvals_by_id = erase_from tmp_token_id t.approvals_by_id;
    next_approval_id_by_id = erase_from tmp_token_id t.next_approval_id_by_id;
  }

  unfoldable pub measure_min_token_storage_cost : NonFungibleToken → Outcome Panic NonFungibleToken
  unfolding set_dummy roll_back
  measure_min_token_storage_cost t =
      let initial = storage_usage t in
      let filled = set_dummy t in
      if leb initial (storage_usage filled)
      then done (
          roll_back
            (record filled { extra_storage_in_bytes_per_token = storage_usage filled - initial }))
      else panic Panic.arithmetic_overflow

  unfoldable pub new : AccountId → Bool → Bool → Bool → Outcome Panic NonFungibleToken
  unfolding measure_min_token_storage_cost
  new owner_id metadata enumeration approval = measure_min_token_storage_cost (record {
    owner_id = owner_id;
    extra_storage_in_bytes_per_token = 0;
    owner_by_id = [];
    token_metadata_by_id = empty_if metadata;
    tokens_per_owner = empty_if enumeration;
    approvals_by_id = empty_if approval;
    next_approval_id_by_id = empty_if approval;
  })

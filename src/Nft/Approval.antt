-- ===== src/Nft/Approval.antt =====
-- Approvals (near-contract-standards/src/non_fungible_token/approval/approval_impl.rs).
use near_runtime_rs.Base.{
  ℕ, ◌+◌, ◌-◌, Bool, false, Option, none, some, [], ◌∷◌, ◌==◌, ltb, if◌then◌else◌, u64_size,
  Outcome, done, panic, pure, gets, or_panic, modify, require, ◌>>=◌, ◌>>◌,
}
use near_runtime_rs.Base.Dict.{Dict, nat_key, lookup, insert, erase, is_some}
use near_runtime_rs.Nft.State.{
  AccountId, TokenId, NonFungibleToken, Panic, World, Env, Call, set_token, set_approvals,
  gas_for_nft_approve,
}
use near_runtime_rs.Nft.TokenSet.{is_empty}
use near_runtime_rs.Nft.Core.{assert_one_yocto, or_else, matches}
use near_runtime_rs.Nft.Refund.{
  assert_at_least_one_yocto, refund_deposit, bytes_for_approved_account_id,
  refund_approved_account_ids, refund_approved_account_ids_iter,
}
use Prim.Native.String.{String}

-- The call of `nft_on_approve` that `nft_approve` schedules.
pub record ApproveCall : Type 0 where
  pub account_id : AccountId
  pub gas : ℕ
  pub token_id : TokenId
  pub owner_id : AccountId
  pub approval_id : ℕ
  pub msg : String

abbrev pub expect_token_found : {A : Type 0} → Option A → Call A
expect_token_found o = or_panic o Panic.token_not_found

abbrev pub expect_approval : {A : Type 0} → Option A → Call A
expect_approval o = or_panic o Panic.next_approval_missing

-- The approvals, when the caller is the token's owner.
unfoldable pub owned_approvals : Env → TokenId → Call (Dict TokenId (Dict AccountId ℕ))
owned_approvals env token_id = do
  by_id ← gets (λ w. w.token.approvals_by_id)
  approvals_by_id ← or_panic by_id Panic.no_approval_management
  owner ← gets (λ w. lookup token_id w.token.owner_by_id)
  owner_id ← expect_token_found owner
  require (env.predecessor_account_id == owner_id) Panic.predecessor_not_owner
  pure approvals_by_id

-- The tables with a new approval in them.
abbrev pub record_approval :
    TokenId
    → AccountId
    → ℕ
    → Dict AccountId ℕ
    → Dict TokenId (Dict AccountId ℕ)
    → Dict TokenId ℕ
    → World
    → World
record_approval token_id account_id approval_id approved by_id next_by_id w =
    set_token
      (record (w.token) {
        approvals_by_id = some (insert token_id (insert account_id approval_id approved) by_id);
        next_approval_id_by_id = some (insert token_id (approval_id + 1) next_by_id);
      })
      w

module _ (name_length : AccountId → ℕ) where
  unfoldable pub nft_approve : Env → TokenId → AccountId → Option String → Call (Option ApproveCall)
  unfolding owned_approvals assert_at_least_one_yocto
  nft_approve env token_id account_id msg = do
    assert_at_least_one_yocto env
    by_id ← owned_approvals env token_id
    next ← gets (λ w. w.token.next_approval_id_by_id)
    next_by_id ← expect_approval next
    let approved : Dict AccountId ℕ = or_else [] (lookup token_id by_id)
    let approval_id : ℕ = or_else 1 (lookup token_id next_by_id)
    require (ltb (approval_id + 1) u64_size) Panic.arithmetic_overflow
    modify (record_approval token_id account_id approval_id approved by_id next_by_id)
    refund_deposit env (
        if is_some (lookup account_id approved)
        then 0
        else bytes_for_approved_account_id name_length account_id)
    pure (elim msg [
      | none ↦ none
      | some msg ↦ some (record {
        account_id = account_id;
        gas = env.prepaid_gas - gas_for_nft_approve;
        token_id = token_id;
        owner_id = env.predecessor_account_id;
        approval_id = approval_id;
        msg = msg;
      })
    ])

  -- What is left when an approval is taken back.
  abbrev pub without :
      TokenId
      → AccountId
      → Dict AccountId ℕ
      → Dict TokenId (Dict AccountId ℕ)
      → Dict TokenId (Dict AccountId ℕ)
  without token_id account_id approved by_id =
      let left = erase account_id approved in
      if is_empty left then erase token_id by_id else insert token_id left by_id

  unfoldable pub revoke_approved :
      Env
      → TokenId
      → AccountId
      → Dict TokenId (Dict AccountId ℕ)
      → Dict AccountId ℕ
      → Call (Unit {0})
  revoke_approved env token_id account_id by_id approved = elim (lookup account_id approved) [
    | none ↦ pure tt
    | some _ ↦ do
      refund_approved_account_ids_iter name_length env env.predecessor_account_id (account_id ∷ [])
      modify (set_approvals (without token_id account_id approved by_id))
  ]

  unfoldable pub nft_revoke : Env → TokenId → AccountId → Call (Unit {0})
  unfolding owned_approvals assert_one_yocto revoke_approved
  nft_revoke env token_id account_id = do
    assert_one_yocto env
    by_id ← owned_approvals env token_id
    elim (lookup token_id by_id) [
      | none ↦ pure tt
      | some approved ↦ revoke_approved env token_id account_id by_id approved
    ]

  unfoldable pub nft_revoke_all : Env → TokenId → Call (Unit {0})
  unfolding owned_approvals assert_one_yocto
  nft_revoke_all env token_id = do
    assert_one_yocto env
    by_id ← owned_approvals env token_id
    elim (lookup token_id by_id) [
      | none ↦ pure tt
      | some approved ↦ do
        refund_approved_account_ids name_length env env.predecessor_account_id approved
        modify (set_approvals (erase token_id by_id))
    ]

-- Whether the approvals of a token let the account act.
unfoldable pub is_approved_in :
    Dict TokenId (Dict AccountId ℕ) → TokenId → AccountId → Option ℕ → Bool
is_approved_in by_id token_id approved_account_id approval_id = elim (lookup token_id by_id) [
  | none ↦ false
  | some ids ↦ elim (lookup approved_account_id ids) [
    | none ↦ false
    | some actual ↦ matches approval_id actual
  ]
]

unfoldable pub nft_is_approved :
    NonFungibleToken → TokenId → AccountId → Option ℕ → Outcome Panic Bool
unfolding is_approved_in
nft_is_approved t token_id approved_account_id approval_id = elim (lookup token_id t.owner_by_id) [
  | none ↦ panic Panic.token_not_found
  | some _ ↦ elim (t.approvals_by_id) [
    | none ↦ done false
    | some by_id ↦ done (is_approved_in by_id token_id approved_account_id approval_id)
  ]
]

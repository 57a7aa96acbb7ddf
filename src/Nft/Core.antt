-- ===== src/Nft/Core.antt =====
-- Ownership and transfers
-- (near-contract-standards/src/non_fungible_token/core/core_impl.rs and utils.rs).
use near_runtime_rs.Base.{
  ℕ, ◌-◌, Bool, true, Option, none, some, List, [], ◌∷◌, ◌==◌, ltb, not, if◌then◌else◌, pure, gets,
  or_panic, modify, require, ◌>>=◌, ◌>>◌,
}
use near_runtime_rs.Base.Dict.{Dict, nat_key, lookup, insert, erase}
use near_runtime_rs.Nft.State.{
  AccountId, TokenId, TokenMetadata, Token, NonFungibleToken, Panic, World, Env, Call, set_token,
  emit, gas_for_resolve_transfer, gas_for_nft_transfer_call,
}
use near_runtime_rs.Nft.State
use near_runtime_rs.Nft.TokenSet.{add, remove}
use Prim.Native.String.{String}

abbrev pub or_else : {A : Type 0} → A → Option A → A
or_else a none = a
or_else a (some b) = b

-- An empty list is removed to save space.
abbrev pub put_tokens :
    AccountId → List TokenId → Dict AccountId (List TokenId) → Dict AccountId (List TokenId)
put_tokens a [] listed = erase a listed
put_tokens a (x ∷ xs) listed = insert a (x ∷ xs) listed

abbrev pub tokens_of : AccountId → Dict AccountId (List TokenId) → List TokenId
tokens_of a listed = or_else [] (lookup a listed)

-- The token's id leaves the list of one owner and enters that of another.
unfoldable pub move_listed :
    TokenId
    → AccountId
    → AccountId
    → Dict AccountId (List TokenId)
    → Option (Dict AccountId (List TokenId))
move_listed token_id from to listed = elim (lookup from listed) [
  | none ↦ none
  | some owner_tokens ↦
      let left = put_tokens from (remove token_id owner_tokens) listed in
      some (insert to (add token_id (tokens_of to left)) left)
]

unfoldable pub move_enumerated :
    TokenId → AccountId → AccountId → NonFungibleToken → Option NonFungibleToken
unfolding move_listed
move_enumerated token_id from to t = elim (t.tokens_per_owner) [
  | none ↦ some t
  | some listed ↦ elim (move_listed token_id from to listed) [
    | none ↦ none
    | some moved ↦ some (record t { tokens_per_owner = some moved })
  ]
]

unfoldable pub internal_transfer_unguarded : TokenId → AccountId → AccountId → Call (Unit {0})
unfolding move_enumerated
internal_transfer_unguarded token_id from to = do
  modify
      (λ w. set_token (record (w.token) { owner_by_id = insert token_id to w.token.owner_by_id }) w)
  t ← gets (λ w. w.token)
  moved ← or_panic (move_enumerated token_id from to t) Panic.tokens_of_owner_missing
  modify (set_token moved)

-- The approvals of a token, which a transfer clears.
unfoldable pub take_approvals : TokenId → Call (Option (Dict AccountId ℕ))
take_approvals token_id = do
  by_id ← gets (λ w. w.token.approvals_by_id)
  elim by_id [
    | none ↦ pure none
    | some approvals ↦ do
      modify (λ w.
          set_token (record (w.token) { approvals_by_id = some (erase token_id approvals) }) w)
      pure (some (or_else [] (lookup token_id approvals)))
  ]

abbrev pub matches : Option ℕ → ℕ → Bool
matches none actual = true
matches (some given) actual = actual == given

-- Who acts for the owner, if the owner does not.
unfoldable pub authorize :
    AccountId → AccountId → Option (Dict AccountId ℕ) → Option ℕ → Call (Option AccountId)
authorize sender_id owner_id approved approval_id = if sender_id == owner_id then pure none else (do
  app_acc_ids ← or_panic approved Panic.approval_extension_disabled
  actual ← or_panic (lookup sender_id app_acc_ids) Panic.sender_not_approved
  require (matches approval_id actual) Panic.approval_id_differs
  pure (some sender_id))

-- `Option::filter`
abbrev pub filter : (AccountId → Bool) → Option AccountId → Option AccountId
filter p none = none
filter p (some a) = if p a then some a else none

unfoldable pub emit_transfer :
    AccountId → AccountId → TokenId → Option AccountId → Option String → Call (Unit {0})
emit_transfer owner_id receiver_id token_id sender_id memo = modify (
    emit (
      State.Effect.nft_transfer_event owner_id receiver_id token_id
        (filter (λ s. s == owner_id) sender_id) memo))

unfoldable pub internal_transfer :
    AccountId
    → AccountId
    → TokenId
    → Option ℕ
    → Option String
    → Call (AccountId × Option (Dict AccountId ℕ))
internal_transfer sender_id receiver_id token_id approval_id memo = do
  owner ← gets (λ w. lookup token_id w.token.owner_by_id)
  owner_id ← or_panic owner Panic.token_not_found
  approved_account_ids ← take_approvals token_id
  authorized ← authorize sender_id owner_id approved_account_ids approval_id
  require (not (owner_id == receiver_id)) Panic.same_owner
  internal_transfer_unguarded token_id owner_id receiver_id
  emit_transfer owner_id receiver_id token_id authorized memo
  pure (owner_id, approved_account_ids)

-- `near_sdk::assert_one_yocto`
unfoldable pub assert_one_yocto : Env → Call (Unit {0})
assert_one_yocto env = require (env.attached_deposit == 1) Panic.one_yocto_required

unfoldable pub nft_transfer : Env → AccountId → TokenId → Option ℕ → Option String → Call (Unit {0})
unfolding assert_one_yocto
nft_transfer env receiver_id token_id approval_id memo = do
  assert_one_yocto env
  internal_transfer env.predecessor_account_id receiver_id token_id approval_id memo
  pure tt

-- The two calls that `nft_transfer_call` schedules: `nft_on_transfer` on the receiver, and then
-- `nft_resolve_transfer` on the token itself.
pub record TransferCall : Type 0 where
  pub receiver_id : AccountId
  pub receiver_gas : ℕ
  pub sender_id : AccountId
  pub previous_owner_id : AccountId
  pub token_id : TokenId
  pub msg : String
  pub resolver_id : AccountId
  pub resolver_gas : ℕ
  pub approved_account_ids : Option (Dict AccountId ℕ)

unfoldable pub nft_transfer_call :
    Env → AccountId → TokenId → Option ℕ → Option String → String → Call TransferCall
unfolding assert_one_yocto
nft_transfer_call env receiver_id token_id approval_id memo msg = do
  assert_one_yocto env
  require (ltb gas_for_nft_transfer_call env.prepaid_gas) Panic.more_gas_required
  (old_owner, old_approvals) ←
      internal_transfer env.predecessor_account_id receiver_id token_id approval_id memo
  pure (record {
    receiver_id = receiver_id;
    receiver_gas = env.prepaid_gas - gas_for_nft_transfer_call;
    sender_id = env.predecessor_account_id;
    previous_owner_id = old_owner;
    token_id = token_id;
    msg = msg;
    resolver_id = env.current_account_id;
    resolver_gas = gas_for_resolve_transfer;
    approved_account_ids = old_approvals;
  })

unfoldable pub nft_token : NonFungibleToken → TokenId → Option Token
nft_token t token_id = elim (lookup token_id t.owner_by_id) [
  | none ↦ none
  | some owner_id ↦ some (record {
    token_id = token_id;
    owner_id = owner_id;
    metadata = elim (t.token_metadata_by_id) [ none ↦ none | some by_id ↦ lookup token_id by_id ];
    approved_account_ids = elim (t.approvals_by_id) [
      | none ↦ none
      | some by_id ↦ some (or_else [] (lookup token_id by_id))
    ];
  })
]

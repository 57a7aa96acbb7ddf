-- ===== src/Nft/Minted.antt =====
-- Who can mint, what a mint enters in the tables, and the tokens of a new contract
-- (near-contract-standards/src/non_fungible_token/core/core_impl.rs).
use near_runtime_rs.Base.{
  ℕ, ◌≡◌, not, ◌&&◌, Option, none, some, arith, Option-cases, Bool-cases, Outcome-cases, inl, inr,
  done, ℕ_discrete, true,
}
use near_runtime_rs.Base.Dict.{nat_key, lookup, is_some}
use near_runtime_rs.Nft.State.{
  AccountId, TokenId, TokenMetadata, Token, NonFungibleToken, World, Env, set_token,
}
use near_runtime_rs.Nft.Refund.{refund_deposit_to_account}
use near_runtime_rs.Nft.Mint.{
  insert_token, refund_storage, internal_mint_with_refund, internal_mint, mint,
}
use near_runtime_rs.Nft.Invariant.{IsValid}
use near_runtime_rs.Nft.Entered.{new_token, Minted, insert_token-Minted}

module _ (storage_usage : NonFungibleToken → ℕ) where
  refund_storage_inv :
      (env : Env) (n : ℕ) (id : Option AccountId) (w : World) {x : Unit {0}} {u : World}
      → refund_storage storage_usage env n id w ≡ done (x, u)
      → u.token ≡ w.token
  unfolding refund_storage refund_deposit_to_account
  refund_storage_inv env n none w h = ground (arith, h)
  refund_storage_inv env n (some id) w h = ground (arith, h)

  pub internal_mint_with_refund_inv :
      (env : Env) (t : TokenId) (owner : AccountId) (metadata : Option TokenMetadata)
      (refund_id : Option AccountId) (w : World) {token : Token} {u : World}
      → internal_mint_with_refund storage_usage env t owner metadata refund_id w ≡ done (token, u)
      → (lookup t (w.token.owner_by_id) ≡ none)
        × (u.token ≡ insert_token t owner metadata (w.token))
        × (token ≡ new_token t owner metadata (w.token.approvals_by_id))
        × (is_some (w.token.token_metadata_by_id) ≡ true → is_some metadata ≡ true)
  unfolding internal_mint_with_refund
  internal_mint_with_refund_inv env t owner metadata refund_id w {token} {u} h =
      let w2 = set_token (insert_token t owner metadata (w.token)) w in
      elim (Bool-cases (is_some (w.token.token_metadata_by_id) && not (is_some metadata))) [
        | inl b ↦ absurd (ground (arith, b, h))
        | inr b ↦ elim (Option-cases (lookup t (w.token.owner_by_id))) [
          | inr (o, e) ↦ absurd (ground (arith, b, e, h))
          | inl e ↦
              elim (Outcome-cases
                (refund_storage storage_usage env (storage_usage (w.token)) refund_id w2)) [
                  | inr (x, r) ↦ absurd (ground (arith, b, e, r, h))
                  | inl ((x, u2), r) ↦ (
                    e,
                    ground (
                      arith,
                      b,
                      e,
                      r,
                      h,
                      refund_storage_inv env (storage_usage (w.token)) refund_id w2 r,
                    ),
                    ground (arith, b, e, r, h),
                    λ d. ground (arith, b, d),
                  )
                ]
        ]
      ]

  -- A mint that returns from valid tables was called by the contract's owner, for an id that no
  -- token had. Afterwards `nft_token` finds the token with its owner and nobody approved, with the
  -- given metadata where the contract keeps metadata, and every other token as before. The owners'
  -- lists, the approvals and the approval ids are valid, the tables of approvals and of approval
  -- ids and the contract's owner are the same, and the token is the one that is returned.
  pub mint_inv :
      (env : Env) (t : TokenId) (owner : AccountId) (metadata : Option TokenMetadata) (w : World)
      {token : Token} {u : World}
      → IsValid (w.token)
      → mint storage_usage env t owner metadata w ≡ done (token, u)
      → (env.predecessor_account_id ≡ w.token.owner_id)
        × (lookup t (w.token.owner_by_id) ≡ none)
        × Minted t owner metadata (w.token) token (u.token)
  unfolding mint internal_mint
  mint_inv env t owner metadata w {token} {u} v h =
      elim (ℕ_discrete (env.predecessor_account_id) (w.token.owner_id)) [
        | no p ↦ absurd (ground (arith, p, h))
        | yes p ↦
            elim (Outcome-cases (
              internal_mint_with_refund storage_usage env t owner metadata
                (some (env.predecessor_account_id)) w)) [
                  | inr (x, r) ↦ absurd (ground (arith, p, r, h))
                  | inl ((tok, u2), r) ↦
                      let (e, eu, et, d) =
                        internal_mint_with_refund_inv env t owner metadata
                          (some (env.predecessor_account_id)) w r in
                      let same : u.token ≡ insert_token t owner metadata (w.token) =
                        ground (arith, p, r, h, eu) in
                      let returned : token ≡ new_token t owner metadata (w.token.approvals_by_id) =
                        ground (arith, p, r, h, et) in
                      (
                        p,
                        e,
                        rw (same, returned) (insert_token-Minted t owner metadata (w.token) v e d),
                      )
                ]
      ]

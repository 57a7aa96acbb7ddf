-- ===== src/Nft/Revoke.antt =====
-- Who can revoke the approvals of a token, and what is left of them
-- (near-contract-standards/src/non_fungible_token/approval/approval_impl.rs, nft_revoke_all).
use near_runtime_rs.Base.{
  ℕ, ◌≡◌, ◌==◌, Option, none, some, arith, refl, Option-cases, Bool-cases, Outcome-cases, inl, inr,
  ◌⊎◌, sym, subst, done, false,
}
use near_runtime_rs.Base.Dict.{Dict, nat_key, lookup, erase, lookup-erase_self}
use near_runtime_rs.Nft.State.{AccountId, TokenId, NonFungibleToken, World, Env, set_approvals}
use near_runtime_rs.Nft.Core.{assert_one_yocto}
use near_runtime_rs.Nft.Refund.{refund_approved_account_ids, refund_approved_account_ids_iter}
use near_runtime_rs.Nft.Approval.{nft_is_approved, is_approved_in, owned_approvals, nft_revoke_all}
use near_runtime_rs.Nft.Invariant.{IsValid, Known, Fresh}
use near_runtime_rs.Nft.Preserves.{cleared-Known, cleared-Fresh}
use near_runtime_rs.Nft.Approve.{owned_approvals_inv}

module _ (name_length : AccountId → ℕ) where
  refund_inv :
      (env : Env) (a : AccountId) (ids : Dict AccountId ℕ) (w : World) {x : Unit {0}} {u : World}
      → refund_approved_account_ids name_length env a ids w ≡ done (x, u)
      → u.token ≡ w.token
  unfolding refund_approved_account_ids refund_approved_account_ids_iter
  refund_inv env a ids w h = ground (arith, h)

  revoke_all_steps :
      (env : Env) (t : TokenId) (w : World) {x : Unit {0}} {u : World}
      → nft_revoke_all name_length env t w ≡ done (x, u)
      → (by_id : Dict TokenId (Dict AccountId ℕ)) × (w.token.approvals_by_id ≡ some by_id)
        × (lookup t (w.token.owner_by_id) ≡ some env.predecessor_account_id)
        × ((u.token ≡ w.token) × (lookup t by_id ≡ none)
            ⊎ (u.token ≡ (set_approvals (erase t by_id) w).token))
  unfolding nft_revoke_all assert_one_yocto
  revoke_all_steps env t w {x} {u} h = elim (Bool-cases (env.attached_deposit == 1)) [
    | inr d ↦ absurd (ground (arith, d, h))
    | inl d ↦ elim (Outcome-cases (owned_approvals env t w)) [
      | inr (p, o) ↦ absurd (ground (arith, d, o, h))
      | inl ((by_id, u1), o) ↦
          let (eu, eb, eo) = owned_approvals_inv env t w o in
          elim (Option-cases (lookup t by_id)) [
            | inl n ↦ (by_id, eb, eo, inl (ground (arith, d, o, eu, n, h), n))
            | inr (ids, n) ↦
                elim (Outcome-cases (
                  refund_approved_account_ids name_length env (env.predecessor_account_id) ids w)) [
                    | inr (p, r) ↦ absurd (ground (arith, d, o, eu, n, r, h))
                    | inl ((y, u2), r) ↦ (
                      by_id,
                      eb,
                      eo,
                      inr (
                          ground (
                            arith,
                            d,
                            o,
                            eu,
                            n,
                            r,
                            h,
                            refund_inv env (env.predecessor_account_id) ids w r,
                          )),
                    )
                  ]
          ]
    ]
  ]

  not_approved :
      (n : NonFungibleToken) (t : TokenId) {o : AccountId} {by_id : Dict TokenId (Dict AccountId ℕ)}
      → lookup t (n.owner_by_id) ≡ some o
      → n.approvals_by_id ≡ some by_id
      → lookup t by_id ≡ none
      → (a : AccountId) (id : Option ℕ) → nft_is_approved n t a id ≡ done false
  unfolding nft_is_approved is_approved_in
  not_approved n t eo eb e a id = ground (arith, eo, eb, e)

  erased-IsValid :
      (w : World) (t : TokenId) {by_id : Dict TokenId (Dict AccountId ℕ)}
      → w.token.approvals_by_id ≡ some by_id
      → IsValid (w.token)
      → IsValid ((set_approvals (erase t by_id) w).token)
  erased-IsValid w t {by_id} eb v =
      let k = subst (Known (w.token.owner_by_id)) eb v.known in
      record {
        enumerated = v.enumerated;
        known = cleared-Known t (w.token.owner_by_id) (some by_id) k;
        fresh =
            cleared-Fresh t (w.token.owner_by_id) (some by_id) (w.token.next_approval_id_by_id) k
              (subst (λ o. Fresh o (w.token.next_approval_id_by_id)) eb v.fresh);
      }

  -- A revocation of all approvals that returns from valid tables was made by the token's owner. No
  -- account is approved for the token then, under whatever id, and the tables are valid.
  pub revoke_all_inv :
      (env : Env) (t : TokenId) (w : World) {x : Unit {0}} {u : World}
      → IsValid (w.token)
      → nft_revoke_all name_length env t w ≡ done (x, u)
      → (lookup t (w.token.owner_by_id) ≡ some env.predecessor_account_id)
        × IsValid (u.token)
        × ((a : AccountId) (id : Option ℕ) → nft_is_approved (u.token) t a id ≡ done false)
  revoke_all_inv env t w v h =
      let (by_id, eb, eo, c) = revoke_all_steps env t w h in
      elim c [
        | inl (e, n) ↦ (
          eo,
          subst IsValid (sym e) v,
          λ a id.
              subst (λ n. nft_is_approved n t a id ≡ done false) (sym e)
                (not_approved (w.token) t eo eb n a id),
        )
        | inr e ↦ (
          eo,
          subst IsValid (sym e) (erased-IsValid w t eb v),
          λ a id.
              subst (λ n. nft_is_approved n t a id ≡ done false) (sym e)
                (not_approved ((set_approvals (erase t by_id) w).token) t eo refl
                  (lookup-erase_self t by_id (subst (Known (w.token.owner_by_id)) eb v.known).0) a
                  id),
        )
      ]

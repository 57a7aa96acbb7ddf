-- ===== src/Nft/Approve.antt =====
-- Who can approve, and what an approval or its end does to the tables
-- (near-contract-standards/src/non_fungible_token/approval/approval_impl.rs).
use near_runtime_rs.Base.{
  ℕ, ◌+◌, ◌≡◌, leb, ltb, Option, none, some, [], arith, refl, Option-cases, Bool-cases, ==_self,
  Outcome-cases, inl, inr, ap, sym, ◌∙◌, subst, done, ℕ_discrete, u64_size, true, false, or_panic,
  require, Bool, if◌then◌else◌,
}
use near_runtime_rs.Base.Dict.{Dict, nat_key, lookup, is_some}
use near_runtime_rs.Nft.State.{AccountId, TokenId, World, Env, Panic}
use near_runtime_rs.Nft.Core.{or_else}
use near_runtime_rs.Nft.Refund.{
  bytes_for_approved_account_id, refund_deposit, refund_deposit_to_account,
  assert_at_least_one_yocto,
}
use near_runtime_rs.Nft.Approval.{
  record_approval, ApproveCall, nft_approve, nft_is_approved, owned_approvals,
}
use near_runtime_rs.Nft.Invariant.{IsValid}
use near_runtime_rs.Nft.Approved.{record_approval-IsValid, approved_after}
use Prim.Native.String.{String}

pub owned_approvals_inv :
    (env : Env) (t : TokenId) (w : World) {by_id : Dict TokenId (Dict AccountId ℕ)} {u : World}
    → owned_approvals env t w ≡ done (by_id, u)
    → (u ≡ w)
      × (w.token.approvals_by_id ≡ some by_id)
      × (lookup t (w.token.owner_by_id) ≡ some env.predecessor_account_id)
unfolding owned_approvals
owned_approvals_inv env t w h = elim (Option-cases (w.token.approvals_by_id)) [
  | inl e ↦ absurd (ground (arith, e, h))
  | inr (by_id, e) ↦ elim (Option-cases (lookup t (w.token.owner_by_id))) [
    | inl o ↦ absurd (ground (arith, e, o, h))
    | inr (owner, o) ↦ elim (ℕ_discrete (env.predecessor_account_id) owner) [
      | yes p ↦ (ground (arith, e, o, p, h), ground (arith, e, o, p, h), ground (arith, e, o, p, h))
      | no p ↦ absurd (ground (arith, e, o, p, h))
    ]
  ]
]

require_inv :
    (b : Bool) (p : Panic) (w : World) {x : Unit {0}} {u : World}
    → require b p w ≡ done (x, u)
    → (b ≡ true) × (u ≡ w)
require_inv true p w h = (refl, cc)
require_inv false p w h = (cc, cc)

or_panic_inv :
    {A : Type 0} (o : Option A) (p : Panic) (w : World) {a : A} {u : World}
    → or_panic o p w ≡ done (a, u)
    → (o ≡ some a) × (u ≡ w)
or_panic_inv (some b) p w h = (cc, cc)
or_panic_inv none p w h = (cc, cc)

refund_deposit_inv :
    (env : Env) (n : ℕ) (w : World) {x : Unit {0}} {u : World}
    → refund_deposit env n w ≡ done (x, u)
    → u.token ≡ w.token
unfolding refund_deposit refund_deposit_to_account
refund_deposit_inv env n w h = ground (arith, h)

-- The steps of a call that returns.
approve_steps :
    (name_length : AccountId → ℕ) (env : Env) (t : TokenId) (account : AccountId)
    (msg : Option String) (w : World) {call : Option ApproveCall} {u : World}
    → nft_approve name_length env t account msg w ≡ done (call, u)
    → (by_id : Dict TokenId (Dict AccountId ℕ)) × (next : Dict TokenId ℕ) × (w.token.approvals_by_id
        ≡ some by_id)
      × (w.token.next_approval_id_by_id ≡ some next)
      × (lookup t (w.token.owner_by_id) ≡ some env.predecessor_account_id)
      × (u.token
          ≡ (record_approval t account
              (or_else 1 (lookup t next))
              (or_else [] (lookup t by_id))
              by_id
              next
              w).token)
unfolding nft_approve assert_at_least_one_yocto
approve_steps name_length env t account msg w {call} {u} h =
    elim (Bool-cases (leb 1 (env.attached_deposit))) [
      | inr d ↦ absurd (ground (arith, d, h))
      | inl d ↦ elim (Outcome-cases (owned_approvals env t w)) [
        | inr (x, o) ↦ absurd (ground (arith, d, o, h))
        | inl ((by_id, u1), o) ↦
            let (eu, eb, eo) = owned_approvals_inv env t w o in
            elim (Option-cases (w.token.next_approval_id_by_id)) [
              | inl n ↦ absurd (ground (arith, d, o, eu, n, h))
              | inr (next, n) ↦ elim (Bool-cases (ltb (or_else 1 (lookup t next) + 1) u64_size)) [
                | inr b ↦ absurd (ground (arith, d, o, eu, n, b, h))
                | inl b ↦
                    let cost =
                      if is_some (lookup account (or_else [] (lookup t by_id)))
                      then 0
                      else bytes_for_approved_account_id name_length account in
                    let w2 =
                      record_approval t account (or_else 1 (lookup t next))
                        (or_else [] (lookup t by_id)) by_id next w in
                    elim (Outcome-cases (refund_deposit env cost w2)) [
                      | inr (x, r) ↦ absurd (ground (arith, d, o, eu, n, b, r, h))
                      | inl ((x, u2), r) ↦ (
                        by_id,
                        next,
                        eb,
                        n,
                        eo,
                        ground (arith, d, o, eu, n, b, r, h, refund_deposit_inv env cost w2 r),
                      )
                    ]
              ]
            ]
      ]
    ]

-- An approval that returns from valid tables was given by the token's owner. The account is
-- approved under some id then, and the tables are valid.
pub approve_inv :
    (name_length : AccountId → ℕ) (env : Env) (t : TokenId) (account : AccountId)
    (msg : Option String) (w : World) {call : Option ApproveCall} {u : World}
    → IsValid (w.token)
    → nft_approve name_length env t account msg w ≡ done (call, u)
    → (lookup t (w.token.owner_by_id) ≡ some env.predecessor_account_id)
      × IsValid (u.token)
      × ((id : ℕ) × (nft_is_approved (u.token) t account (some id) ≡ done true))
approve_inv name_length env t account msg w v h =
    let (by_id, next, eb, en, eo, eu) = approve_steps name_length env t account msg w h in
    (
      eo,
      subst IsValid (sym eu) (record_approval-IsValid t account w eb en eo v),
      (
        or_else 1 (lookup t next),
        subst (λ n. nft_is_approved n t account (some (or_else 1 (lookup t next))) ≡ done true)
            (sym eu)
            (approved_after t account w eb en eo (some (or_else 1 (lookup t next)))
              ∙ ap done (==_self (or_else 1 (lookup t next)))),
      ),
    )

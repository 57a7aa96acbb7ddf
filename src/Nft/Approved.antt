-- ===== src/Nft/Approved.antt =====
-- What an approval allows, and for how long
-- (near-contract-standards/src/non_fungible_token/approval/approval_impl.rs).
use near_runtime_rs.Base.{
  ℕ, ◌+◌, ◌≡◌, ◌==◌, Option, none, some, List, [], arith, Option-cases, inl, inr, ap, sym, ◌∙◌,
  subst, done, panic, ℕ_discrete, true, false,
}
use near_runtime_rs.Base.Dict.{
  Dict, nat_key, lookup, insert, lookup-erase_self, lookup-insert_ne, insert-Distinct,
  lookup-insert_self,
}
use near_runtime_rs.Nft.State.{AccountId, TokenId, NonFungibleToken, World}
use near_runtime_rs.Nft.Core.{or_else, internal_transfer}
use near_runtime_rs.Nft.Approval.{record_approval, nft_is_approved, is_approved_in}
use near_runtime_rs.Nft.Invariant.{IsValid, Known, Fresh, owned_by}
use near_runtime_rs.Nft.Transfer.{unapproved, token_transfer_done, token_transfer_inv}
use Prim.Native.String.{String}

cleared-is_approved :
    (n : NonFungibleToken) (t : TokenId) (to : AccountId)
    (listed : Option (Dict AccountId (List TokenId)))
    → Known (n.owner_by_id) (n.approvals_by_id)
    → (a : AccountId) (id : Option ℕ)
    → nft_is_approved (owned_by t to listed (unapproved t n)) t a id ≡ done false
unfolding nft_is_approved is_approved_in
cleared-is_approved n t to listed k a id = elim (Option-cases (n.approvals_by_id)) [
  | inl e ↦ ground (arith, e, lookup-insert_self t to (n.owner_by_id))
  | inr (by_id, e) ↦ ground (
    arith,
    e,
    lookup-insert_self t to (n.owner_by_id),
    lookup-erase_self t by_id (subst (Known (n.owner_by_id)) e k).0,
  )
]

-- After a transfer from valid tables that returns, no account is approved for the token, under
-- whatever id.
pub transfer_clears_approvals :
    (sender receiver : AccountId) (t : TokenId) (approval_id : Option ℕ) (memo : Option String)
    (w : World) {r : AccountId × Option (Dict AccountId ℕ)} {u : World}
    → IsValid (w.token)
    → internal_transfer sender receiver t approval_id memo w ≡ done (r, u)
    → (a : AccountId) (id : Option ℕ) → nft_is_approved (u.token) t a id ≡ done false
transfer_clears_approvals sender receiver t approval_id memo w {r} {u} v h a id =
    let (owner, e, auth, ne) = token_transfer_inv sender receiver t approval_id memo w h in
    let s = token_transfer_done sender receiver owner t approval_id memo w v e auth ne in
    subst (λ n. nft_is_approved n t a id ≡ done false)
      (ap (λ o. elim o [ done (_, x) ↦ x.token | panic _ ↦ w.token ]) (sym s.1 ∙ h))
      (cleared-is_approved (w.token) t receiver s.0 v.known a id)

record-Fresh :
    (t : TokenId) (account : AccountId) (by_id : Dict TokenId (Dict AccountId ℕ))
    (next : Dict TokenId ℕ)
    → Fresh (some by_id) (some next)
    → Fresh
        (some (
          insert t
            (insert account (or_else 1 (lookup t next)) (or_else [] (lookup t by_id)))
            by_id))
        (some (insert t (or_else 1 (lookup t next) + 1) next))
record-Fresh t account by_id next f s ids a id e l = elim (ℕ_discrete s t) [
  | yes p ↦ elim (ℕ_discrete a account) [
    | yes q ↦ ground (
      arith,
      p,
      q,
      e,
      l,
      lookup-insert_self t
          (insert account (or_else 1 (lookup t next)) (or_else [] (lookup t by_id))) by_id,
      lookup-insert_self t (or_else 1 (lookup t next) + 1) next,
      lookup-insert_self account (or_else 1 (lookup t next)) (or_else [] (lookup t by_id)),
    )
    | no q ↦ elim (Option-cases (lookup t by_id)) [
      | inl n ↦ absurd (
          ground (
            arith,
            p,
            q,
            n,
            e,
            l,
            lookup-insert_self t
                (insert account (or_else 1 (lookup t next)) (or_else [] (lookup t by_id))) by_id,
            lookup-insert_self t (or_else 1 (lookup t next) + 1) next,
            lookup-insert_ne a account (or_else 1 (lookup t next)) (or_else [] (lookup t by_id)) q,
          ))
      | inr (olds, n) ↦ ground (
        arith,
        p,
        q,
        n,
        e,
        l,
        lookup-insert_self t
            (insert account (or_else 1 (lookup t next)) (or_else [] (lookup t by_id))) by_id,
        lookup-insert_self t (or_else 1 (lookup t next) + 1) next,
        lookup-insert_ne a account (or_else 1 (lookup t next)) (or_else [] (lookup t by_id)) q,
        f t olds a id,
      )
    ]
  ]
  | no p ↦ ground (
    arith,
    p,
    e,
    l,
    lookup-insert_ne s t (insert account (or_else 1 (lookup t next)) (or_else [] (lookup t by_id)))
        by_id p,
    lookup-insert_ne s t (or_else 1 (lookup t next) + 1) next p,
    f s ids a id,
  )
]

module _ (t : TokenId) (account : AccountId) (w : World) {by_id : Dict TokenId (Dict AccountId ℕ)}
    {next : Dict TokenId ℕ} (eb : w.token.approvals_by_id ≡ some by_id)
    (en : w.token.next_approval_id_by_id ≡ some next) {owner : AccountId}
    (eo : lookup t (w.token.owner_by_id) ≡ some owner) where
  abbrev pub approved_world : World
  approved_world =
      record_approval t account (or_else 1 (lookup t next)) (or_else [] (lookup t by_id)) by_id next
        w

  pub record_approval-IsValid : IsValid (w.token) → IsValid (approved_world.token)
  record_approval-IsValid v = record {
    enumerated = v.enumerated;
    known = (
      insert-Distinct t (insert account (or_else 1 (lookup t next)) (or_else [] (lookup t by_id)))
          by_id (subst (Known (w.token.owner_by_id)) eb v.known).0,
      λ s ids e. elim (ℕ_discrete s t) [
        | yes p ↦ (owner, ap (λ x. lookup x (w.token.owner_by_id)) p ∙ eo)
        | no p ↦ (subst (Known (w.token.owner_by_id)) eb v.known).1 s ids (
            sym (
              lookup-insert_ne s t
                (insert account (or_else 1 (lookup t next)) (or_else [] (lookup t by_id))) by_id p)
            ∙ e)
      ],
    );
    fresh =
        record-Fresh t account by_id next (
          subst (λ o. Fresh o (some next)) eb (subst (Fresh (w.token.approvals_by_id)) en v.fresh));
  }

  pub approved_after :
      (given : Option ℕ)
      → nft_is_approved (approved_world.token) t account given
        ≡ done (elim given [ none ↦ true | some g ↦ or_else 1 (lookup t next) == g ])
  unfolding nft_is_approved is_approved_in
  approved_after given = ground (
    arith,
    eo,
    given,
    lookup-insert_self t (insert account (or_else 1 (lookup t next)) (or_else [] (lookup t by_id)))
        by_id,
    lookup-insert_self account (or_else 1 (lookup t next)) (or_else [] (lookup t by_id)),
  )

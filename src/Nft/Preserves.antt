-- ===== src/Nft/Preserves.antt =====
-- Transfers, mints and approvals keep the tables of the non-fungible token valid
-- (near-contract-standards/src/non_fungible_token).
use near_runtime_rs.Base.{
  ℕ, ◌≡◌, Option, none, some, List, arith, ap, sym, ◌∙◌, subst, done, panic, ℕ_discrete,
}
use near_runtime_rs.Base.Dict.{
  Dict, nat_key, lookup, insert, erase, Distinct, lookup-erase_self, lookup-erase_ne,
  lookup-insert_ne, erase-Distinct, lookup-insert_self,
}
use near_runtime_rs.Nft.State.{AccountId, TokenId, TokenMetadata, NonFungibleToken, World}
use near_runtime_rs.Nft.Core.{internal_transfer}
use near_runtime_rs.Nft.Mint.{insert_token, list_token}
use near_runtime_rs.Nft.Index.{owned, Agree, Unlisted, add-Agree}
use near_runtime_rs.Nft.Invariant.{IsValid, Enumerated, Known, Fresh}
use near_runtime_rs.Nft.Transfer.{cleared, token_transfer_done, token_transfer_inv}
use Prim.Native.String.{String}

-- A token that gets an owner has one.
insert-Known :
    (t : TokenId) (to : AccountId) (owners : Dict TokenId AccountId)
    (by : Option (Dict TokenId (Dict AccountId ℕ)))
    → Known owners by
    → Known (insert t to owners) by
insert-Known t to owners none k = tt
insert-Known t to owners (some by_id) k = (
  k.0,
  λ s ids e. elim (ℕ_discrete s t) [
    | yes p ↦ (to, ap (λ x. lookup x (insert t to owners)) p ∙ lookup-insert_self t to owners)
    | no p ↦ ((k.1 s ids e).0, lookup-insert_ne s t to owners p ∙ (k.1 s ids e).1)
  ],
)

lookup-erase-some :
    {V : Type 0} (s t : TokenId) (by_id : Dict TokenId V) {ids : V}
    → Distinct by_id
    → lookup s (erase t by_id) ≡ some ids
    → lookup s by_id ≡ some ids
lookup-erase-some s t by_id d e = elim (ℕ_discrete s t) [
  | yes p ↦ absurd (ground (arith, p, e, lookup-erase_self t by_id d))
  | no p ↦ sym (lookup-erase_ne s t by_id p) ∙ e
]

pub cleared-Known :
    (t : TokenId) (owners : Dict TokenId AccountId) (by : Option (Dict TokenId (Dict AccountId ℕ)))
    → Known owners by
    → Known owners (cleared t by)
cleared-Known t owners none k = tt
cleared-Known t owners (some by_id) k =
    (erase-Distinct t by_id k.0, λ s ids e. k.1 s ids (lookup-erase-some s t by_id k.0 e))

pub cleared-Fresh :
    (t : TokenId) (owners : Dict TokenId AccountId) (by : Option (Dict TokenId (Dict AccountId ℕ)))
    (next : Option (Dict TokenId ℕ))
    → Known owners by
    → Fresh by next
    → Fresh (cleared t by) next
cleared-Fresh t owners none next k f = tt
cleared-Fresh t owners (some by_id) none k f = f
cleared-Fresh t owners (some by_id) (some next) k f =
    λ s ids a id e. f s ids a id (lookup-erase-some s t by_id k.0 e)

-- A transfer that returns from valid tables leaves valid tables: every token is listed once, under
-- its owner; only tokens that exist have approvals; and the approvals' ids are below the token's
-- next one.
pub nft_transfer-IsValid :
    (sender receiver : AccountId) (t : TokenId) (approval_id : Option ℕ) (memo : Option String)
    (w : World) {r : AccountId × Option (Dict AccountId ℕ)} {u : World}
    → IsValid (w.token)
    → internal_transfer sender receiver t approval_id memo w ≡ done (r, u)
    → IsValid (u.token)
nft_transfer-IsValid sender receiver t approval_id memo w {r} {u} v h =
    let (owner, e, a, ne) = token_transfer_inv sender receiver t approval_id memo w h in
    let s = token_transfer_done sender receiver owner t approval_id memo w v e a ne in
    subst IsValid (ap (λ o. elim o [ done (_, x) ↦ x.token | panic _ ↦ w.token ]) (sym s.1 ∙ h))
      (record {
        enumerated = s.2;
        known =
            insert-Known t receiver (w.token.owner_by_id) (cleared t (w.token.approvals_by_id))
              (cleared-Known t (w.token.owner_by_id) (w.token.approvals_by_id) v.known);
        fresh =
            cleared-Fresh t (w.token.owner_by_id) (w.token.approvals_by_id)
              (w.token.next_approval_id_by_id) v.known v.fresh;
      })

fresh-Unlisted :
    (t : TokenId) (owners : Dict TokenId AccountId) (listed : Dict AccountId (List TokenId))
    → Agree owners listed
    → lookup t owners ≡ none
    → Unlisted t owners listed
unfolding owned
fresh-Unlisted t owners listed v e = record {
  unlisted_distinct = v.distinct;
  nowhere = λ a. ground (arith, v.counts t a, e);
  others = λ s a _. v.counts s a;
}

list_token-Enumerated :
    (t : TokenId) (owner : AccountId) (owners : Dict TokenId AccountId)
    (listed : Option (Dict AccountId (List TokenId)))
    → lookup t owners ≡ none
    → Enumerated owners listed
    → Enumerated (insert t owner owners) (list_token t owner listed)
list_token-Enumerated t owner owners none e v = tt
list_token-Enumerated t owner owners (some listed) e v =
    add-Agree t owner owners listed (fresh-Unlisted t owners listed v e)

-- So does the entry of a new token.
pub insert_token-IsValid :
    (t : TokenId) (owner : AccountId) (metadata : Option TokenMetadata) (n : NonFungibleToken)
    → lookup t (n.owner_by_id) ≡ none
    → IsValid n
    → IsValid (insert_token t owner metadata n)
unfolding insert_token
insert_token-IsValid t owner metadata n e v = record {
  enumerated = list_token-Enumerated t owner (n.owner_by_id) (n.tokens_per_owner) e v.enumerated;
  known = insert-Known t owner (n.owner_by_id) (n.approvals_by_id) v.known;
  fresh = v.fresh;
}

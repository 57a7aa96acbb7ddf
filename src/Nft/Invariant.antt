-- ===== src/Nft/Invariant.antt =====
-- What holds of the non-fungible token between calls, and the unguarded transfer
-- (near-contract-standards/src/non_fungible_token/core/core_impl.rs).
use near_runtime_rs.Base.{
  ℕ, ◌≡◌, ◌<◌, Option, none, some, List, arith, Option-cases, inl, inr, ◌∙◌, subst, done,
}
use near_runtime_rs.Base.Dict.{Dict, nat_key, lookup, insert, Distinct}
use near_runtime_rs.Nft.State.{AccountId, TokenId, NonFungibleToken, World, set_token}
use near_runtime_rs.Nft.TokenSet.{add, remove, count}
use near_runtime_rs.Nft.Core.{
  or_else, put_tokens, tokens_of, move_listed, move_enumerated, internal_transfer_unguarded,
}
use near_runtime_rs.Nft.Index.{owned, Agree, remove-Unlisted, add-Agree}

abbrev pub Enumerated : Dict TokenId AccountId → Option (Dict AccountId (List TokenId)) → Type 0
Enumerated owners none = Unit
Enumerated owners (some listed) = Agree owners listed

-- Only tokens that exist have approvals.
abbrev pub Known : Dict TokenId AccountId → Option (Dict TokenId (Dict AccountId ℕ)) → Type 0
Known owners none = Unit
Known owners (some by_id) =
    Distinct by_id
    × ((s : TokenId) (ids : Dict AccountId ℕ)
        → lookup s by_id ≡ some ids
        → (o : AccountId) × (lookup s owners ≡ some o))

-- The next approval id of a token is above those in use.
abbrev pub Fresh : Option (Dict TokenId (Dict AccountId ℕ)) → Option (Dict TokenId ℕ) → Type 0
Fresh none next = Unit
Fresh (some by_id) none = ⊥
Fresh (some by_id) (some next) =
    (s : TokenId) (ids : Dict AccountId ℕ) (a : AccountId) (id : ℕ)
    → lookup s by_id ≡ some ids
    → lookup a ids ≡ some id
    → id < or_else 1 (lookup s next)

pub record IsValid (t : NonFungibleToken) : Type 0 where
  pub enumerated : Enumerated t.owner_by_id t.tokens_per_owner
  pub known : Known t.owner_by_id t.approvals_by_id
  pub fresh : Fresh t.approvals_by_id t.next_approval_id_by_id

-- The token with another owner in both tables.
abbrev pub owned_by :
    TokenId
    → AccountId
    → Option (Dict AccountId (List TokenId))
    → NonFungibleToken
    → NonFungibleToken
owned_by token_id to listed t = record t {
  owner_by_id = insert token_id to t.owner_by_id;
  tokens_per_owner = listed;
}

count-some :
    (t : TokenId) (from : AccountId) (listed : Dict AccountId (List TokenId))
    → count t (tokens_of from listed) ≡ 1
    → (xs : List TokenId) × (lookup from listed ≡ some xs)
count-some t from listed h = elim (Option-cases (lookup from listed)) [
  | inl e ↦ absurd (ground (arith, e, h))
  | inr r ↦ r
]

owned-some :
    (t : TokenId) (from : AccountId) (owners : Dict TokenId AccountId)
    → lookup t owners ≡ some from
    → owned t from owners ≡ 1
unfolding owned
owned-some t from owners e = ground (arith, e)

move_listed_lem :
    (t : TokenId) (from to : AccountId) (owners : Dict TokenId AccountId)
    (listed : Dict AccountId (List TokenId))
    → Agree owners listed
    → lookup t owners ≡ some from
    → (moved : Dict AccountId (List TokenId)) × (move_listed t from to listed ≡ some moved)
      × Agree (insert t to owners) moved
unfolding move_listed
move_listed_lem t from to owners listed v e =
    let r = count-some t from listed (v.counts t from ∙ owned-some t from owners e) in
    let left = put_tokens from (remove t (tokens_of from listed)) listed in
    (
      insert to (add t (tokens_of to left)) left,
      cc (r.1),
      add-Agree t to owners left (remove-Unlisted t from owners listed v e),
    )

pub internal_transfer_unguarded_lem :
    (t : TokenId) (from to : AccountId) (w : World)
    → Enumerated (w.token.owner_by_id) (w.token.tokens_per_owner)
    → lookup t (w.token.owner_by_id) ≡ some from
    → (listed : Option (Dict AccountId (List TokenId))) × (internal_transfer_unguarded t from to w
        ≡ done (tt, set_token (owned_by t to listed (w.token)) w))
      × Enumerated (insert t to (w.token.owner_by_id)) listed
unfolding internal_transfer_unguarded move_enumerated
internal_transfer_unguarded_lem t from to w v e = elim (Option-cases (w.token.tokens_per_owner)) [
  | inl n ↦ (none, ground (arith, n), tt)
  | inr (listed, n) ↦
      let r =
        move_listed_lem t from to (w.token.owner_by_id) listed
          (subst (Enumerated (w.token.owner_by_id)) n v) e in
      (some (r.0), ground (arith, n, r.1), r.2)
]

-- ===== src/Nft/Entered.antt =====
-- What a mint leaves in the tables, as `nft_token` shows it
-- (near-contract-standards/src/non_fungible_token/core/core_impl.rs).
use near_runtime_rs.Base.{
  ℕ, ◌≡◌, Option, none, some, arith, Option-cases, inl, inr, subst, refl, ◌≢◌, true, [],
}
use near_runtime_rs.Base.Dict.{nat_key, lookup, is_some, lookup-insert_ne, lookup-insert_self, Dict}
use near_runtime_rs.Nft.Core.{nft_token, or_else}
use near_runtime_rs.Nft.State.{AccountId, TokenId, TokenMetadata, Token, NonFungibleToken}
use near_runtime_rs.Nft.Mint.{insert_token}
use near_runtime_rs.Nft.Invariant.{IsValid, Known}
use near_runtime_rs.Nft.Preserves.{insert_token-IsValid}

-- The token that a mint enters, as it returns it: nobody is approved for it.
abbrev pub new_token :
    TokenId → AccountId → Option TokenMetadata → Option (Dict TokenId (Dict AccountId ℕ)) → Token
new_token t owner metadata approvals = record {
  token_id = t;
  owner_id = owner;
  metadata = metadata;
  approved_account_ids = elim approvals [ none ↦ none | some _ ↦ some [] ];
}

-- The metadata that a view of a new token shows, by the table of metadata.
abbrev pub shown : Option TokenMetadata → Option (Dict TokenId TokenMetadata) → Option TokenMetadata
shown metadata none = none
shown metadata (some _) = metadata

-- What a mint of the token leaves.
pub record Minted (t : TokenId) (owner : AccountId) (metadata : Option TokenMetadata)
    (n : NonFungibleToken) (token : Token) (m : NonFungibleToken) : Type 0 where
  pub returned : token ≡ new_token t owner metadata n.approvals_by_id
  -- Contracts that keep metadata keep it for every token.
  pub described : is_some n.token_metadata_by_id ≡ true → is_some metadata ≡ true
  -- `nft_token` finds the new token, and every other token as before.
  pub entered :
      nft_token m t
      ≡ some (new_token t owner (shown metadata n.token_metadata_by_id) n.approvals_by_id)
  pub others : (j : TokenId) → j ≢ t → nft_token m j ≡ nft_token n j
  pub same_owner_id : m.owner_id ≡ n.owner_id
  pub same_approvals : m.approvals_by_id ≡ n.approvals_by_id
  pub same_next : m.next_approval_id_by_id ≡ n.next_approval_id_by_id
  pub same_extensions : is_some m.tokens_per_owner ≡ is_some n.tokens_per_owner
  -- The owners' lists agree with the owners, the new one included.
  pub valid : IsValid m

-- The views of the tables with the new token in them.
module _ (t : TokenId) (owner : AccountId) (metadata : Option TokenMetadata)
    (n : NonFungibleToken) where
  insert_token_views_other :
      (j : TokenId) → j ≢ t → nft_token (insert_token t owner metadata n) j ≡ nft_token n j
  unfolding insert_token nft_token
  insert_token_views_other j ne = elim (Option-cases (n.token_metadata_by_id)) [
    | inl a ↦ elim (Option-cases metadata) [
      | inl b ↦ ground (arith, a, b, lookup-insert_ne j t owner (n.owner_by_id) ne)
      | inr (m, b) ↦ ground (arith, a, b, lookup-insert_ne j t owner (n.owner_by_id) ne)
    ]
    | inr (d, a) ↦ elim (Option-cases metadata) [
      | inl b ↦ ground (arith, a, b, lookup-insert_ne j t owner (n.owner_by_id) ne)
      | inr (m, b) ↦
          ground (
            arith,
            a,
            b,
            lookup-insert_ne j t owner (n.owner_by_id) ne,
            lookup-insert_ne j t m d ne,
          )
    ]
  ]

  unapproved :
      IsValid n
      → lookup t (n.owner_by_id) ≡ none
      → elim (n.approvals_by_id) [ none ↦ none | some by_id ↦ some (or_else [] (lookup t by_id)) ]
        ≡ (elim (n.approvals_by_id) [ none ↦ none | some _ ↦ some [] ])
  unapproved v e = elim (Option-cases (n.approvals_by_id)) [
    | inl a ↦ ground (arith, a)
    | inr (by_id, a) ↦
        let known = subst (Known (n.owner_by_id)) a v.known in
        elim (Option-cases (lookup t by_id)) [
          | inl b ↦ ground (arith, a, b)
          | inr (ids, b) ↦ let (o, k) = known.1 t ids b in absurd (ground (arith, e, k))
        ]
  ]

  insert_token_view :
      IsValid n
      → lookup t (n.owner_by_id) ≡ none
      → (is_some (n.token_metadata_by_id) ≡ true → is_some metadata ≡ true)
      → nft_token (insert_token t owner metadata n) t
        ≡ some (new_token t owner (shown metadata (n.token_metadata_by_id)) (n.approvals_by_id))
  unfolding insert_token nft_token
  insert_token_view v e d = elim (Option-cases (n.token_metadata_by_id)) [
    | inl a ↦ elim (Option-cases metadata) [
      | inl b ↦ ground (arith, a, b, lookup-insert_self t owner (n.owner_by_id), unapproved v e)
      | inr (m, b) ↦
          ground (arith, a, b, lookup-insert_self t owner (n.owner_by_id), unapproved v e)
    ]
    | inr (k, a) ↦ elim (Option-cases metadata) [
      | inl b ↦ absurd (ground (arith, a, b, d))
      | inr (m, b) ↦ ground (
        arith,
        a,
        b,
        lookup-insert_self t owner (n.owner_by_id),
        unapproved v e,
        lookup-insert_self t m k,
      )
    ]
  ]

pub insert_token-Minted :
    (t : TokenId) (owner : AccountId) (metadata : Option TokenMetadata) (n : NonFungibleToken)
    → IsValid n
    → lookup t (n.owner_by_id) ≡ none
    → (is_some (n.token_metadata_by_id) ≡ true → is_some metadata ≡ true)
    → Minted t owner metadata n
        (new_token t owner metadata (n.approvals_by_id))
        (insert_token t owner metadata n)
unfolding insert_token
insert_token-Minted t owner metadata n v e d = record {
  returned = refl;
  described = d;
  entered = insert_token_view t owner metadata n v e d;
  others = insert_token_views_other t owner metadata n;
  same_owner_id = refl;
  same_approvals = refl;
  same_next = refl;
  same_extensions = elim (Option-cases (n.tokens_per_owner)) [
    | inl a ↦ ground (arith, a)
    | inr (l, a) ↦ ground (arith, a)
  ];
  valid = insert_token-IsValid t owner metadata n e v;
}

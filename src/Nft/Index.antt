-- ===== src/Nft/Index.antt =====
-- The lists of the owners' tokens say the same as the table of owners
-- (near-contract-standards/src/non_fungible_token/core/core_impl.rs).
use near_runtime_rs.Base.{
  ℕ, ◌≡◌, ◌≢◌, none, some, List, [], ◌∷◌, ◌==◌, if◌then◌else◌, arith, ℕ_discrete, ap, sym, ◌∙◌,
  subst,
}
use near_runtime_rs.Base.Dict.{
  Dict, nat_key, lookup, insert, Distinct, lookup-insert_self, lookup-insert_ne, lookup-erase_self,
  lookup-erase_ne, insert-Distinct, erase-Distinct,
}
use near_runtime_rs.Nft.State.{AccountId, TokenId}
use near_runtime_rs.Nft.TokenSet.{count, add, remove}
use near_runtime_rs.Nft.Core.{or_else, put_tokens, tokens_of}
use near_runtime_rs.Nft.Listed.{count-add, count-remove_ne, count-remove_self}

-- 1 for the owner of the token, 0 for anybody else.
unfoldable pub owned : TokenId → AccountId → Dict TokenId AccountId → ℕ
owned s a owners = elim (lookup s owners) [ none ↦ 0 | some o ↦ if o == a then 1 else 0 ]

-- Every token is listed once under its owner, and not under another account.
pub record Agree (owners : Dict TokenId AccountId) (listed : Dict AccountId (List TokenId))
    : Type 0 where
  pub distinct : Distinct listed
  pub counts : (s : TokenId) (a : AccountId) → count s (tokens_of a listed) ≡ owned s a owners

pub owned-insert_self :
    (t : TokenId) (b a : AccountId) (owners : Dict TokenId AccountId)
    → owned t a (insert t b owners) ≡ (if b == a then 1 else 0)
unfolding owned
owned-insert_self t b a owners = ground (arith, lookup-insert_self t b owners)

pub owned-insert_ne :
    (s t : TokenId) (b a : AccountId) (owners : Dict TokenId AccountId)
    → s ≢ t
    → owned s a (insert t b owners) ≡ owned s a owners
unfolding owned
owned-insert_ne s t b a owners h = ground (arith, lookup-insert_ne s t b owners h)

module _ (listed : Dict AccountId (List TokenId)) where
  tokens_of-put_self :
      (a : AccountId) (xs : List TokenId)
      → Distinct listed
      → tokens_of a (put_tokens a xs listed) ≡ xs
  tokens_of-put_self a [] h = ap (or_else []) (lookup-erase_self a listed h)
  tokens_of-put_self a (x ∷ xs) h = ap (or_else []) (lookup-insert_self a (x ∷ xs) listed)

  tokens_of-put_ne :
      (b a : AccountId) (xs : List TokenId)
      → b ≢ a
      → tokens_of b (put_tokens a xs listed) ≡ tokens_of b listed
  tokens_of-put_ne b a [] h = ap (or_else []) (lookup-erase_ne b a listed h)
  tokens_of-put_ne b a (x ∷ xs) h = ap (or_else []) (lookup-insert_ne b a (x ∷ xs) listed h)

  put_tokens-Distinct :
      (a : AccountId) (xs : List TokenId) → Distinct listed → Distinct (put_tokens a xs listed)
  put_tokens-Distinct a [] h = erase-Distinct a listed h
  put_tokens-Distinct a (x ∷ xs) h = insert-Distinct a (x ∷ xs) listed h

-- The table in which the token is listed under nobody.
pub record Unlisted (t : TokenId) (owners : Dict TokenId AccountId)
    (listed : Dict AccountId (List TokenId)) : Type 0 where
  pub unlisted_distinct : Distinct listed
  pub nowhere : (a : AccountId) → count t (tokens_of a listed) ≡ 0
  pub others :
      (s : TokenId) (a : AccountId) → s ≢ t → count s (tokens_of a listed) ≡ owned s a owners

pub remove-Unlisted :
    (t : TokenId) (from : AccountId) (owners : Dict TokenId AccountId)
    (listed : Dict AccountId (List TokenId))
    → Agree owners listed
    → lookup t owners ≡ some from
    → Unlisted t owners (put_tokens from (remove t (tokens_of from listed)) listed)
unfolding owned
remove-Unlisted t from owners listed v e = record {
  unlisted_distinct = put_tokens-Distinct listed from (remove t (tokens_of from listed)) v.distinct;
  nowhere = λ a. elim (ℕ_discrete a from) [
    | yes p ↦ ground (
      arith,
      tokens_of-put_self listed from (remove t (tokens_of from listed)) v.distinct,
      count-remove_self t (tokens_of from listed),
      v.counts t from,
    )
    | no p ↦
        ground
          (arith, tokens_of-put_ne listed a from (remove t (tokens_of from listed)) p, v.counts t a)
  ];
  others = λ s a ne. elim (ℕ_discrete a from) [
    | yes p ↦
        subst
          (λ b.
            count s (tokens_of b (put_tokens from (remove t (tokens_of from listed)) listed))
            ≡ owned s b owners)
          (sym p)
          (ap (count s)
              (tokens_of-put_self listed from (remove t (tokens_of from listed)) v.distinct)
            ∙ count-remove_ne s t (tokens_of from listed) ne
            ∙ v.counts s from)
    | no p ↦
        ap (count s) (tokens_of-put_ne listed a from (remove t (tokens_of from listed)) p)
        ∙ v.counts s a
  ];
}

module _ (t : TokenId) (to : AccountId) (owners : Dict TokenId AccountId)
    (listed : Dict AccountId (List TokenId)) (u : Unlisted t owners listed) where
  counts_to :
      (s : TokenId)
      → count s (tokens_of to (insert to (add t (tokens_of to listed)) listed))
        ≡ owned s to (insert t to owners)
  counts_to s = elim (ℕ_discrete s t) [
    | yes p ↦ ground (
      arith,
      p,
      lookup-insert_self to (add t (tokens_of to listed)) listed,
      count-add t t (tokens_of to listed) (u.nowhere to),
      u.nowhere to,
      owned-insert_self t to to owners,
    )
    | no p ↦ ground (
      arith,
      p,
      lookup-insert_self to (add t (tokens_of to listed)) listed,
      count-add s t (tokens_of to listed) (u.nowhere to),
      u.others s to p,
      owned-insert_ne s t to to owners p,
    )
  ]

  counts_other :
      (s : TokenId) (a : AccountId)
      → a ≢ to
      → count s (tokens_of a (insert to (add t (tokens_of to listed)) listed))
        ≡ owned s a (insert t to owners)
  counts_other s a ne = elim (ℕ_discrete s t) [
    | yes p ↦ ground (
      arith,
      p,
      lookup-insert_ne a to (add t (tokens_of to listed)) listed ne,
      u.nowhere a,
      owned-insert_self t to a owners,
    )
    | no p ↦ ground (
      arith,
      p,
      lookup-insert_ne a to (add t (tokens_of to listed)) listed ne,
      u.others s a p,
      owned-insert_ne s t to a owners p,
    )
  ]

  -- Listing the token under its new owner.
  pub add-Agree : Agree (insert t to owners) (insert to (add t (tokens_of to listed)) listed)
  add-Agree = record {
    distinct = insert-Distinct to (add t (tokens_of to listed)) listed u.unlisted_distinct;
    counts = λ s a. elim (ℕ_discrete a to) [
      | yes p ↦
          subst
            (λ b.
              count s (tokens_of b (insert to (add t (tokens_of to listed)) listed))
              ≡ owned s b (insert t to owners))
            (sym p) (counts_to s)
      | no p ↦ counts_other s a p
    ];
  }

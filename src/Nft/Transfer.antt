-- ===== src/Nft/Transfer.antt =====
-- Who can transfer a token, and what a transfer does
-- (near-contract-standards/src/non_fungible_token/core/core_impl.rs, internal_transfer).
use near_runtime_rs.Base.{
  ℕ, ◌≡◌, ◌≢◌, ◌⊎◌, ◌==◌, true, Option, none, some, List, [], arith, refl, Option-cases, Bool-cases,
  Outcome-cases, inl, inr, done, ℕ_discrete,
}
use near_runtime_rs.Base.Dict.{Dict, nat_key, lookup, insert, erase}
use near_runtime_rs.Nft.State.{AccountId, TokenId, NonFungibleToken, World, Panic, set_token, emit}
use near_runtime_rs.Nft.State
use near_runtime_rs.Nft.Core.{
  or_else, matches, filter, take_approvals, authorize, emit_transfer, internal_transfer,
}
use near_runtime_rs.Nft.Invariant.{IsValid, Enumerated, owned_by, internal_transfer_unguarded_lem}
use Prim.Native.String.{String}

-- The approvals of one token, and the table without them.
abbrev pub approvals_of :
    TokenId → Option (Dict TokenId (Dict AccountId ℕ)) → Option (Dict AccountId ℕ)
approvals_of t none = none
approvals_of t (some by_id) = some (or_else [] (lookup t by_id))

abbrev pub cleared :
    TokenId → Option (Dict TokenId (Dict AccountId ℕ)) → Option (Dict TokenId (Dict AccountId ℕ))
cleared t none = none
cleared t (some by_id) = some (erase t by_id)

abbrev pub unapproved : TokenId → NonFungibleToken → NonFungibleToken
unapproved t n = record n { approvals_by_id = cleared t (n.approvals_by_id) }

-- The owner, or an account with an approval, under its id if one is given.
abbrev pub Authorized : AccountId → AccountId → Option (Dict AccountId ℕ) → Option ℕ → Type 0
Authorized sender owner approved approval_id =
    (sender ≡ owner)
    ⊎ ((ids : Dict AccountId ℕ) × (id : ℕ) × (approved ≡ some ids)
        × (lookup sender ids ≡ some id)
        × (matches approval_id id ≡ true))

pub take_approvals_lem :
    (t : TokenId) (w : World)
    → take_approvals t w
      ≡ done (approvals_of t (w.token.approvals_by_id), set_token (unapproved t (w.token)) w)
unfolding take_approvals
take_approvals_lem t w = elim (Option-cases (w.token.approvals_by_id)) [
  | inl n ↦ ground (arith, n)
  | inr (by_id, n) ↦ ground (arith, n)
]

authorize_done :
    (sender owner : AccountId) (approved : Option (Dict AccountId ℕ)) (approval_id : Option ℕ)
    (w : World)
    → Authorized sender owner approved approval_id
    → (who : Option AccountId) × (authorize sender owner approved approval_id w ≡ done (who, w))
      × (filter (λ s. s == owner) who ≡ none)
unfolding authorize
authorize_done sender owner approved approval_id w a = elim (ℕ_discrete sender owner) [
  | yes p ↦ (none, ground (arith, p), refl)
  | no p ↦ elim a [
    | inl e ↦ absurd (p e)
    | inr (ids, id, e, l, m) ↦ (some sender, ground (arith, p, e, l, m), ground (arith, p))
  ]
]

authorize_inv :
    (sender owner : AccountId) (approved : Option (Dict AccountId ℕ)) (approval_id : Option ℕ)
    (w : World) {u : World} {who : Option AccountId}
    → authorize sender owner approved approval_id w ≡ done (who, u)
    → Authorized sender owner approved approval_id
unfolding authorize
authorize_inv sender owner approved approval_id w h = elim (ℕ_discrete sender owner) [
  | yes p ↦ inl p
  | no p ↦ elim (Option-cases approved) [
    | inl e ↦ absurd (ground (arith, p, e, h))
    | inr (ids, e) ↦ elim (Option-cases (lookup sender ids)) [
      | inl l ↦ absurd (ground (arith, p, e, l, h))
      | inr (id, l) ↦ elim (Bool-cases (matches approval_id id)) [
        | inl m ↦ inr (ids, id, e, l, m)
        | inr m ↦ absurd (ground (arith, p, e, l, m, h))
      ]
    ]
  ]
]

-- The world after a transfer.
abbrev pub transferred :
    TokenId
    → AccountId
    → AccountId
    → Option String
    → Option (Dict AccountId (List TokenId))
    → World
    → World
transferred t owner receiver memo listed w =
    emit (State.Effect.nft_transfer_event owner receiver t none memo)
      (set_token (owned_by t receiver listed (unapproved t (w.token))) w)

-- From valid tables every such transfer returns the owner and the token's approvals. The receiver
-- is the owner then, the approvals are gone, the owners' lists agree with the owners, and the
-- event names no authorized account, whoever made the transfer.
pub token_transfer_done :
    (sender receiver owner : AccountId) (t : TokenId) (approval_id : Option ℕ)
    (memo : Option String) (w : World)
    → IsValid (w.token)
    → lookup t (w.token.owner_by_id) ≡ some owner
    → Authorized sender owner (approvals_of t (w.token.approvals_by_id)) approval_id
    → owner ≢ receiver
    → (listed : Option (Dict AccountId (List TokenId))) × (internal_transfer sender receiver t
          approval_id memo w
        ≡ done (
          (owner, approvals_of t (w.token.approvals_by_id)),
          transferred t owner receiver memo listed w,
        ))
      × Enumerated (insert t receiver (w.token.owner_by_id)) listed
unfolding internal_transfer emit_transfer
token_transfer_done sender receiver owner t approval_id memo w v e a ne =
    let w1 = set_token (unapproved t (w.token)) w in
    let approved = approvals_of t (w.token.approvals_by_id) in
    let who = authorize_done sender owner approved approval_id w1 a in
    let r = internal_transfer_unguarded_lem t owner receiver w1 v.enumerated e in
    (r.0, ground (arith, e, take_approvals_lem t w, who.1, who.2, r.1, ne), r.2)

-- A transfer that returns was made by the token's owner, or by an account with an approval of the
-- token, under its id if one was given; and the receiver is not the owner.
pub token_transfer_inv :
    (sender receiver : AccountId) (t : TokenId) (approval_id : Option ℕ) (memo : Option String)
    (w : World) {r : (AccountId × Option (Dict AccountId ℕ)) × World}
    → internal_transfer sender receiver t approval_id memo w ≡ done r
    → (owner : AccountId) × (lookup t (w.token.owner_by_id) ≡ some owner)
      × Authorized sender owner (approvals_of t (w.token.approvals_by_id)) approval_id
      × (owner ≢ receiver)
unfolding internal_transfer
token_transfer_inv sender receiver t approval_id memo w h =
    elim (Option-cases (lookup t (w.token.owner_by_id))) [
      | inl e ↦ absurd (ground (arith, e, h))
      | inr (owner, e) ↦
          let w1 = set_token (unapproved t (w.token)) w in
          let approved = approvals_of t (w.token.approvals_by_id) in
          elim (Outcome-cases (authorize sender owner approved approval_id w1)) [
            | inl ((who, u), a) ↦ elim (ℕ_discrete owner receiver) [
              | yes p ↦ absurd (ground (arith, e, take_approvals_lem t w, a, p, h))
              | no p ↦ (owner, e, authorize_inv sender owner approved approval_id w1 a, p)
            ]
            | inr (x, a) ↦ absurd (ground (arith, e, take_approvals_lem t w, a, h))
          ]
    ]

-- ===== src/Nft/Return.antt =====
-- A transfer whose receiver's call fails is taken back
-- (near-contract-standards/src/non_fungible_token/core/core_impl.rs, nft_resolve_transfer).
use near_runtime_rs.Base.{
  ℕ, ◌≡◌, ==_self, Bool, false, Option, none, some, List, [], arith, refl, Option-cases, inl, inr,
  ap, sym, ◌∙◌, done, panic, ℕ_discrete,
}
use near_runtime_rs.Base.Dict.{
  Dict, nat_key, lookup, insert, erase, lookup-erase_self, lookup-erase_ne, lookup-insert_ne,
  lookup-insert_self,
}
use near_runtime_rs.Nft.State.{
  AccountId, TokenId, NonFungibleToken, World, Env, Panic, set_token, set_approvals, emit,
}
use near_runtime_rs.Nft.State
use near_runtime_rs.Nft.Core.{or_else, internal_transfer, emit_transfer, nft_token}
use near_runtime_rs.Nft.Resolve.{
  failed, must_revert, restore_approvals, give_back, revert_transfer, nft_resolve_transfer,
}
use near_runtime_rs.Nft.Invariant.{IsValid, Known, owned_by, internal_transfer_unguarded_lem}
use near_runtime_rs.Nft.Transfer.{
  approvals_of, cleared, transferred, token_transfer_done, token_transfer_inv,
}
use Prim.Native.String.{String}

-- The approvals of the tokens after the owner's are set again.
abbrev reset :
    TokenId → Option (Dict TokenId (Dict AccountId ℕ)) → Option (Dict TokenId (Dict AccountId ℕ))
reset t none = none
reset t (some by_id) = some (insert t (or_else [] (lookup t by_id)) (erase t (erase t by_id)))

abbrev with_approvals : Option (Dict TokenId (Dict AccountId ℕ)) → World → World
with_approvals by w = record w { token = record (w.token) { approvals_by_id = by } }

restore_cleared :
    (name_length : AccountId → ℕ) (env : Env) (receiver : AccountId) (t : TokenId)
    (owners : Dict TokenId AccountId) (by : Option (Dict TokenId (Dict AccountId ℕ))) (w : World)
    → Known owners by
    → w.token.approvals_by_id ≡ cleared t by
    → restore_approvals name_length env receiver t (approvals_of t by) w
      ≡ done (tt, with_approvals (reset t by) w)
unfolding restore_approvals
restore_cleared name_length env receiver t owners none w k e = ground (arith, e)
restore_cleared name_length env receiver t owners (some by_id) w k e =
    ground (arith, e, lookup-erase_self t by_id k.0)

nft_token-reset :
    (t s : TokenId) (owner receiver : AccountId) (n : NonFungibleToken)
    (listed : Option (Dict AccountId (List TokenId)))
    → lookup t (n.owner_by_id) ≡ some owner
    → nft_token
        (record n {
          owner_by_id = insert t owner (insert t receiver (n.owner_by_id));
          tokens_per_owner = listed;
          approvals_by_id = reset t (n.approvals_by_id);
        })
        s
      ≡ nft_token n s
unfolding nft_token
nft_token-reset t s owner receiver n listed e = elim (ℕ_discrete s t) [
  | yes p ↦ elim (Option-cases (n.approvals_by_id)) [
    | inl a ↦
        ground (arith, e, p, a, lookup-insert_self t owner (insert t receiver (n.owner_by_id)))
    | inr (by_id, a) ↦ ground (
      arith,
      e,
      p,
      a,
      lookup-insert_self t owner (insert t receiver (n.owner_by_id)),
      lookup-insert_self t (or_else [] (lookup t by_id)) (erase t (erase t by_id)),
    )
  ]
  | no p ↦ elim (Option-cases (n.approvals_by_id)) [
    | inl a ↦ ground (
      arith,
      e,
      p,
      a,
      lookup-insert_ne s t owner (insert t receiver (n.owner_by_id)) p,
      lookup-insert_ne s t receiver (n.owner_by_id) p,
    )
    | inr (by_id, a) ↦ ground (
      arith,
      e,
      p,
      a,
      lookup-insert_ne s t owner (insert t receiver (n.owner_by_id)) p,
      lookup-insert_ne s t receiver (n.owner_by_id) p,
      lookup-insert_ne s t (or_else [] (lookup t by_id)) (erase t (erase t by_id)) p,
      lookup-erase_ne s t (erase t by_id) p,
      lookup-erase_ne s t by_id p,
    )
  ]
]

-- If the receiver's call fails, and nothing happens to the token between a transfer from valid
-- tables and its callback, the callback returns false, and every token's owner, metadata and
-- approvals are those before the transfer.
pub transfer_then_returned :
    (name_length : AccountId → ℕ) (from_slice : List ℕ → Option Bool) (env : Env)
    (sender receiver owner : AccountId) (t : TokenId) (approval_id : Option ℕ)
    (memo : Option String) (w : World) {approved : Option (Dict AccountId ℕ)} {u : World}
    → IsValid (w.token)
    → internal_transfer sender receiver t approval_id memo w ≡ done ((owner, approved), u)
    → (x : World) × (nft_resolve_transfer name_length from_slice env failed owner receiver t
          approved u
        ≡ done (false, x))
      × ((s : TokenId) → nft_token (x.token) s ≡ nft_token (w.token) s)
unfolding nft_resolve_transfer must_revert revert_transfer give_back emit_transfer
transfer_then_returned name_length from_slice env sender receiver owner t approval_id memo w
      {approved} {u} v h =
    let (o, e, a, ne) = token_transfer_inv sender receiver t approval_id memo w h in
    let s = token_transfer_done sender receiver o t approval_id memo w v e a ne in
    let u1 = transferred t o receiver memo s.0 w in
    let r =
      internal_transfer_unguarded_lem t receiver o u1 s.2
        (lookup-insert_self t receiver (w.token.owner_by_id)) in
    let w2 = set_token (owned_by t o r.0 (u1.token)) u1 in
    let c =
      restore_cleared name_length env receiver t (w.token.owner_by_id) (w.token.approvals_by_id) w2
        v.known refl in
    let resolve = nft_resolve_transfer name_length from_slice env failed in
    let back : resolve o receiver t (approvals_of t (w.token.approvals_by_id)) u1
        ≡ done (
          false,
          emit (State.Effect.nft_transfer_event receiver o t none none)
              (with_approvals (reset t (w.token.approvals_by_id)) w2),
        ) =
      ground
        (arith, lookup-insert_self t receiver (w.token.owner_by_id), ==_self receiver, r.1, c) in
    (
      emit (State.Effect.nft_transfer_event receiver o t none none)
          (with_approvals (reset t (w.token.approvals_by_id)) w2),
      ap (λ q. elim q [ done ((b, given), y) ↦ resolve b receiver t given y | panic z ↦ panic z ])
            (sym h ∙ s.1)
          ∙ back,
      λ x. nft_token-reset t x o receiver (w.token) r.0 e,
    )

-- ===== src/Ft/Resolve.antt =====
-- The callback of `ft_transfer_call`: the unused part of the transfer goes back
-- (near-contract-standards/src/fungible_token/core_impl.rs).
use near_runtime_rs.Base.{
  ℕ, Option, none, some, List, ltb, if◌then◌else◌, min, pure, gets, or_panic, modify, ◌>>=◌, ◌>>◌,
}
use near_runtime_rs.Base.Dict.{nat_key, lookup, insert}
use near_runtime_rs.Ft.State.{AccountId, Balance, Panic, Call, set_accounts, set_total, emit}
use near_runtime_rs.Ft.State
use near_runtime_rs.Ft.Core.{checked_add, checked_sub}

pub data PromiseResult : Type 0 where
  successful : List ℕ → PromiseResult
  failed : PromiseResult

-- Reading the receiver's answer as a JSON `U128` is the work of `serde_json`.
module _ (from_slice : List ℕ → Option Balance) where
  unfoldable pub unused_amount : PromiseResult → Balance → Balance
  unused_amount (successful value) amount = elim (from_slice value) [
    | some unused ↦ min amount unused
    | none ↦ amount
  ]
  unused_amount failed amount = amount

-- The tail of the refund, once the receiver has paid it.
unfoldable pub refund_sender : AccountId → AccountId → Balance → Balance → Call (Balance × Balance)
refund_sender sender_id receiver_id amount refund = do
  sender ← gets (λ w. lookup sender_id w.token.accounts)
  elim sender [
    | some sender_balance ↦ do
      new_balance ← or_panic (checked_add sender_balance refund) Panic.sender_balance_overflow
      modify (λ w. set_accounts (insert sender_id new_balance w.token.accounts) w)
      modify (emit (State.Effect.ft_transfer_event receiver_id sender_id refund (some "refund")))
      used ← or_panic (checked_sub amount refund) Panic.total_supply_overflow
      pure (used, 0)
    | none ↦ do
      total ← gets (λ w. w.token.total_supply)
      new_total ← or_panic (checked_sub total refund) Panic.total_supply_overflow
      modify (set_total new_total)
      modify (emit (State.Effect.log "The account of the sender was deleted"))
      modify (emit (State.Effect.ft_burn_event receiver_id refund (some "refund")))
      pure (amount, refund)
  ]

-- The receiver pays back what it still has of the unused amount.
unfoldable pub take_refund :
    AccountId → AccountId → Balance → Balance → Balance → Call (Balance × Balance)
unfolding refund_sender
take_refund sender_id receiver_id amount receiver_balance refund = do
  new_balance ← or_panic (checked_sub receiver_balance refund) Panic.receiver_not_enough_balance
  modify (λ w. set_accounts (insert receiver_id new_balance w.token.accounts) w)
  refund_sender sender_id receiver_id amount refund

-- The used amount and the burned amount.
unfoldable pub resolve_unused : AccountId → AccountId → Balance → Balance → Call (Balance × Balance)
unfolding take_refund
resolve_unused sender_id receiver_id amount unused =
    if ltb 0 unused
    then (do
      receiver ← gets (λ w. lookup receiver_id w.token.accounts)
      let receiver_balance : ℕ = elim receiver [ some b ↦ b | none ↦ 0 ]
      (if ltb 0 receiver_balance
          then take_refund sender_id receiver_id amount receiver_balance
              (min receiver_balance unused)
          else pure (amount, 0)))
    else pure (amount, 0)

module _ (from_slice : List ℕ → Option Balance) where
  unfoldable pub internal_ft_resolve_transfer :
      PromiseResult → AccountId → AccountId → Balance → Call (Balance × Balance)
  internal_ft_resolve_transfer result sender_id receiver_id amount =
      resolve_unused sender_id receiver_id amount (unused_amount from_slice result amount)

  unfoldable pub ft_resolve_transfer :
      PromiseResult → AccountId → AccountId → Balance → Call Balance
  ft_resolve_transfer result sender_id receiver_id amount = do
    (used, _) ← internal_ft_resolve_transfer result sender_id receiver_id amount
    pure used

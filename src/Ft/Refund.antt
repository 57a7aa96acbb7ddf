-- ===== src/Ft/Refund.antt =====
-- What the callback of `ft_transfer_call` does
-- (near-contract-standards/src/fungible_token/core_impl.rs, internal_ft_resolve_transfer).
use near_runtime_rs.Base.{◌+◌, ◌-◌, ◌≤◌, ◌≡◌, inl, inr, none, some, done, arith, Option-cases}
use near_runtime_rs.Base.Dict.{
  nat_key, lookup, insert, sum, sum-insert, insert-Distinct, lookup-le-sum,
}
use near_runtime_rs.Ft.State.{
  AccountId, Balance, FungibleToken, Panic, World, set_accounts, set_total, emit,
}
use near_runtime_rs.Ft.State
use near_runtime_rs.Ft.Resolve.{take_refund}
use near_runtime_rs.Ft.Invariant.{IsValid, update-IsValid, balance-le-supply}

-- The state after the receiver, which holds `v`, has paid `x`.
abbrev pub paid : AccountId → Balance → Balance → World → World
paid r v x w = set_accounts (insert r (v - x) w.token.accounts) w

-- The receiver's payment is missing from the sum until the sender, if any, has it.
paid_sum :
    (r : AccountId) (v x : Balance) (w : World)
    → IsValid w.token
    → lookup r w.token.accounts ≡ some v
    → x ≤ v
    → sum (insert r (v - x) w.token.accounts) + x ≡ w.token.total_supply
paid_sum r v x w valid e h = omega (arith, sum-insert r (v - x) v w.token.accounts e)

module _ (s r : AccountId) (amount v x : Balance) (w : World) (valid : IsValid w.token)
    (er : lookup r w.token.accounts ≡ some v) (h : x ≤ v) (hx : x ≤ amount) where
  -- The state after a refund to a sender that holds `u` by then.
  abbrev pub refunded : Balance → World
  refunded u =
      emit (State.Effect.ft_transfer_event r s x (some "refund"))
        (set_accounts (insert s (u + x) (insert r (v - x) w.token.accounts)) w)

  -- The state after the refund has been burned.
  abbrev pub burned : World
  burned = emit (State.Effect.ft_burn_event r x (some "refund")) (
      emit (State.Effect.log "The account of the sender was deleted")
        (set_total (w.token.total_supply - x) (paid r v x w)))

  pub take_refund_sender :
      (u : Balance)
      → lookup s (insert r (v - x) w.token.accounts) ≡ some u
      → take_refund s r amount v x w ≡ done ((amount - x, 0), refunded u)
  unfolding take_refund
  take_refund_sender u e = ground (
    arith,
    paid_sum r v x w valid er h,
    lookup-le-sum s u (insert r (v - x) w.token.accounts) e,
    valid.bounded,
  )

  pub take_refund_burn :
      lookup s (insert r (v - x) w.token.accounts) ≡ none
      → take_refund s r amount v x w ≡ done ((amount, x), burned)
  unfolding take_refund
  take_refund_burn e = ground (arith, balance-le-supply r v valid er)

  pub refunded-IsValid :
      (u : Balance)
      → lookup s (insert r (v - x) w.token.accounts) ≡ some u
      → IsValid (refunded u).token
  refunded-IsValid u e = record {
    distinct =
        insert-Distinct s (u + x) _ (insert-Distinct r (v - x) w.token.accounts valid.distinct);
    supply = omega (
      arith,
      paid_sum r v x w valid er h,
      sum-insert s (u + x) u (insert r (v - x) w.token.accounts) e,
    );
    bounded = valid.bounded;
  }

  pub burned-IsValid : IsValid burned.token
  burned-IsValid =
      update-IsValid r v (v - x) (w.token.total_supply - x) w valid er
        (omega (arith, balance-le-supply r v valid er)) (omega (arith, valid.bounded))

  -- The refund goes through: no check of the code fires.
  pub take_refund_total :
      (out : Balance × Balance) × (t : World) × (take_refund s r amount v x w ≡ done (out, t))
      × IsValid t.token
  take_refund_total = elim (Option-cases (lookup s (insert r (v - x) w.token.accounts))) [
    | inl gone ↦ ((amount, x), burned, take_refund_burn gone, burned-IsValid)
    | inr (u, e) ↦ ((amount - x, 0), refunded u, take_refund_sender u e, refunded-IsValid u e)
  ]

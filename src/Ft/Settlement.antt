-- ===== src/Ft/Settlement.antt =====
-- How the callback of `ft_transfer_call` settles a transfer
-- (near-contract-standards/src/fungible_token/core_impl.rs, internal_ft_resolve_transfer).
use near_runtime_rs.Base.{
  ℕ, ◌+◌, ◌-◌, ◌≤◌, ◌<◌, ◌≡◌, ◌≢◌, inl, inr, Option, none, some, List, refl, min, done, arith,
  Option-cases, subst, sym, dec_lt, ◌∙◌, ℕ_discrete,
}
use near_runtime_rs.Base.Dict.{nat_key, lookup, insert, lookup-insert_self, lookup-insert_ne}
use near_runtime_rs.Ft.State.{AccountId, Balance, World}
use near_runtime_rs.Ft.Core.{ft_balance_of}
use near_runtime_rs.Ft.Resolve.{
  PromiseResult, failed, successful, unused_amount, take_refund, resolve_unused,
  internal_ft_resolve_transfer, ft_resolve_transfer,
}
use near_runtime_rs.Ft.Invariant.{IsValid, Preserves, balance-le-supply}
use near_runtime_rs.Ft.Refund.{
  refunded, burned, take_refund_sender, take_refund_burn, refunded-IsValid, burned-IsValid,
}

-- What the receiver gives back: the unused amount, as far as it still has it.
abbrev pub refund_of : AccountId → Balance → World → Balance
refund_of r unused w = min (ft_balance_of w.token r) unused

-- The accounts of a settlement from `w` to `t` with the answer `(used, burned)`.
pub record Settled (s r : AccountId) (amount refund : Balance) (w t : World)
    (used burned_amount : Balance) : Type 0 where
  pub valid : IsValid t.token
  -- What is burned leaves the supply.
  pub supply : t.token.total_supply + burned_amount ≡ w.token.total_supply
  -- A sender that is registered gets the refund, which is then not used.
  pub back : lookup s w.token.accounts ≢ none → (used + refund ≡ amount) × (burned_amount ≡ 0)
  -- If the sender is gone, the refund is burned and counts as used.
  pub gone : lookup s w.token.accounts ≡ none → (used ≡ amount) × (burned_amount ≡ refund)
  pub receiver : s ≢ r → ft_balance_of t.token r + refund ≡ ft_balance_of w.token r
  pub sender : s ≢ r → ft_balance_of t.token s + burned_amount ≡ ft_balance_of w.token s + refund
  pub others :
      (a : AccountId) → a ≢ s → a ≢ r → lookup a t.token.accounts ≡ lookup a w.token.accounts

refund_gone :
    (r : AccountId) (unused : Balance) (w : World)
    → lookup r w.token.accounts ≡ none
    → refund_of r unused w ≡ 0
unfolding ft_balance_of
refund_gone r unused w e = ground arith

refund_found :
    (r : AccountId) (unused v : Balance) (w : World)
    → lookup r w.token.accounts ≡ some v
    → refund_of r unused w ≡ min v unused
unfolding ft_balance_of
refund_found r unused v w e = ground arith

module _ (s r : AccountId) (amount : Balance) (w : World) (valid : IsValid w.token) where
  unchanged : Settled s r amount 0 w w amount 0
  unchanged = record {
    valid = valid;
    supply = omega arith;
    back = λ _. (omega arith, refl);
    gone = λ _. (refl, refl);
    receiver = λ _. omega arith;
    sender = λ _. omega arith;
    others = λ a _ _. refl;
  }

  -- The sender is registered before the receiver pays if it is afterwards, and the other way round.
  debtor_gone :
      (n : Balance)
      → lookup s (insert r n w.token.accounts) ≡ none
      → lookup s w.token.accounts ≡ none
  debtor_gone n e = grind (arith, lookup-insert_self, lookup-insert_ne)

  debtor_found :
      (n : Balance) {v u : Balance}
      → lookup r w.token.accounts ≡ some v
      → lookup s (insert r n w.token.accounts) ≡ some u
      → lookup s w.token.accounts ≢ none
  debtor_found n er found absent = elim (ℕ_discrete s r) [
    | yes p ↦ ground (arith, p, er, absent)
    | no p ↦ ground (arith, found, lookup-insert_ne s r n w.token.accounts p, absent)
  ]

  module _ (v x : Balance) (er : lookup r w.token.accounts ≡ some v) (h : x ≤ v)
      (hx : x ≤ amount) where
    Settled-refund :
        (u : Balance)
        → lookup s (insert r (v - x) w.token.accounts) ≡ some u
        → Settled s r amount x w (refunded s r amount v x w valid er h hx u) (amount - x) 0
    unfolding ft_balance_of
    Settled-refund u e = record {
      valid = refunded-IsValid s r amount v x w valid er h hx u e;
      supply = omega arith;
      back = λ _. (omega arith, refl);
      gone = λ absent. absurd (debtor_found (v - x) er e absent);
      receiver = λ ne. grind (arith, lookup-insert_self, lookup-insert_ne);
      sender = λ ne. grind (arith, lookup-insert_self, lookup-insert_ne);
      others = λ a h1 h2. grind (arith, lookup-insert_ne);
    }

    Settled-burn :
        lookup s (insert r (v - x) w.token.accounts) ≡ none
        → Settled s r amount x w (burned s r amount v x w valid er h hx) amount x
    unfolding ft_balance_of
    Settled-burn e = record {
      valid = burned-IsValid s r amount v x w valid er h hx;
      supply = omega (arith, balance-le-supply r v valid er);
      back = λ present. absurd (present (debtor_gone (v - x) e));
      gone = λ _. (refl, refl);
      receiver = λ ne. grind (arith, lookup-insert_self, lookup-insert_ne);
      sender = λ ne. grind (arith, lookup-insert_self, lookup-insert_ne);
      others = λ a h1 h2. grind (arith, lookup-insert_ne);
    }

    -- The refund goes through: no check of the code fires.
    take_refund-Settled :
        (used b : Balance) × (t : World) × (take_refund s r amount v x w ≡ done ((used, b), t))
        × Settled s r amount x w t used b
    take_refund-Settled = elim (Option-cases (lookup s (insert r (v - x) w.token.accounts))) [
      | inl gone ↦ (
        amount,
        x,
        burned s r amount v x w valid er h hx,
        take_refund_burn s r amount v x w valid er h hx gone,
        Settled-burn gone,
      )
      | inr (u, e) ↦ (
        amount - x,
        0,
        refunded s r amount v x w valid er h hx u,
        take_refund_sender s r amount v x w valid er h hx u e,
        Settled-refund u e,
      )
    ]

  pub resolve_unused_idle :
      (unused : Balance)
      → refund_of r unused w ≡ 0
      → resolve_unused s r amount unused w ≡ done ((amount, 0), w)
  unfolding resolve_unused ft_balance_of
  resolve_unused_idle unused h = ground arith

  pub resolve_unused_refund :
      (unused v : Balance)
      → lookup r w.token.accounts ≡ some v
      → 0 < min v unused
      → resolve_unused s r amount unused w ≡ take_refund s r amount v (min v unused) w
  unfolding resolve_unused
  resolve_unused_refund unused v e h = ground arith

  resolve_unused-Settled :
      (unused : Balance)
      → unused ≤ amount
      → (used b : Balance) × (t : World) × (resolve_unused s r amount unused w
          ≡ done ((used, b), t))
        × Settled s r amount (refund_of r unused w) w t used b
  resolve_unused-Settled unused h = elim (Option-cases (lookup r w.token.accounts)) [
    | inl gone ↦ (
      amount,
      0,
      w,
      resolve_unused_idle unused (refund_gone r unused w gone),
      subst (λ x. Settled s r amount x w w amount 0) (sym (refund_gone r unused w gone)) unchanged,
    )
    | inr (v, e) ↦ elim (dec_lt 0 (min v unused)) [
      | yes p ↦
          rw (resolve_unused_refund unused v e p, refund_found r unused v w e)
            (take_refund-Settled v (min v unused) e (omega arith) (omega arith))
      | no p ↦
          let zero : refund_of r unused w ≡ 0 = refund_found r unused v w e ∙ omega arith in
          (
            amount,
            0,
            w,
            resolve_unused_idle unused zero,
            subst (λ x. Settled s r amount x w w amount 0) (sym zero) unchanged,
          )
    ]
  ]

module _ (from_slice : List ℕ → Option Balance) where
  unused-le : (p : PromiseResult) (amount : Balance) → unused_amount from_slice p amount ≤ amount
  unfolding unused_amount
  unused-le (successful value) amount = ground arith
  unused-le failed amount = omega arith

  -- From a valid state the callback always returns, whatever the receiver answered and whatever
  -- happened to the two accounts in between. It settles the transfer: the receiver pays back what
  -- it has of the unused amount. If the sender is registered, it gets that, and the rest of the
  -- amount is used; if the sender is gone, it is burned and the whole amount counts as used. No
  -- other account changes, the supply falls by what is burned, and the new state is valid.
  pub resolve_settles :
      (result : PromiseResult) (s r : AccountId) (amount : Balance) (w : World)
      → IsValid w.token
      → (used b : Balance) × (t : World) × (internal_ft_resolve_transfer from_slice result s r
            amount w
          ≡ done ((used, b), t))
        × Settled s r amount (refund_of r (unused_amount from_slice result amount) w) w t used b
  unfolding internal_ft_resolve_transfer
  resolve_settles result s r amount w valid =
      resolve_unused-Settled s r amount w valid _ (unused-le result amount)

  pub internal_ft_resolve_transfer-Preserves :
      (result : PromiseResult) (s r : AccountId) (amount : Balance)
      → Preserves (internal_ft_resolve_transfer from_slice result s r amount)
  internal_ft_resolve_transfer-Preserves result s r amount w v =
      let (_, _, _, e, settled) = resolve_settles result s r amount w v in rw e settled.valid

  pub ft_resolve_transfer-Preserves :
      (result : PromiseResult) (s r : AccountId) (amount : Balance)
      → Preserves (ft_resolve_transfer from_slice result s r amount)
  unfolding ft_resolve_transfer
  ft_resolve_transfer-Preserves result s r amount w v =
      ground (arith, internal_ft_resolve_transfer-Preserves result s r amount w v)

-- ===== src/Ft/Spending.antt =====
-- Who can lower a balance
-- (near-contract-standards/src/fungible_token/core_impl.rs and storage_impl.rs).
use near_runtime_rs.Base.{
  ℕ, ◌≤◌, ◌≡◌, ◌≢◌, Bool, Option, some, List, Outcome, done, panic, arith, refl, subst, sym, ◌∙◌,
  ℕ_discrete, Option-cases, inl, inr,
}
use near_runtime_rs.Base.Dict.{
  nat_key, lookup, lookup-insert_ne, lookup-insert_self, lookup-erase_ne,
}
use near_runtime_rs.Ft.State.{AccountId, Balance, Panic, World, Env}
use near_runtime_rs.Ft.Core.{
  internal_transfer, ft_transfer, ft_transfer_call, ft_balance_of, internal_register_account,
}
use near_runtime_rs.Ft.Resolve.{PromiseResult, ft_resolve_transfer}
use near_runtime_rs.Ft.Storage.{
  storage_deposit, deposit_for, deposit_new, deposit_again, beneficiary,
  internal_storage_unregister, storage_unregister, storage_withdraw,
}
use near_runtime_rs.Ft.Invariant.{IsValid}
use near_runtime_rs.Ft.Transfer.{transfer_inv, transferred}
use near_runtime_rs.Ft.Settlement.{resolve_settles, Settled}
use near_runtime_rs.Ft.Contract.{
  Request, transfer, transfer_call, resolve_transfer, deposit, unregister, withdraw, perform,
}
use Prim.Native.String.{String}

-- If the call returns, the balance of `a` is at least what it was.
abbrev Mono : {A : Type 0} → AccountId → World → Outcome Panic (A × World) → Type 0
Mono a w (done (_, t)) = ft_balance_of w.token a ≤ ft_balance_of t.token a
Mono a w (panic e) = Unit

transferred_mono :
    (a s r : AccountId) (u v x : Balance) (memo : Option String) (w : World)
    → a ≢ s
    → lookup r w.token.accounts ≡ some v
    → ft_balance_of w.token a ≤ ft_balance_of (transferred s r u v x memo w).token a
unfolding ft_balance_of
transferred_mono a s r u v x memo w ne er = elim (ℕ_discrete a r) [
  | yes p ↦ grind (arith, lookup-insert_self, lookup-insert_ne)
  | no p ↦ grind (arith, lookup-insert_self, lookup-insert_ne)
]

transfer-Mono :
    (a s r : AccountId) (x : Balance) (memo : Option String) (w : World)
    → a ≢ s
    → Mono a w (internal_transfer s r x memo w)
transfer-Mono a s r x memo w ne = go (internal_transfer s r x memo w) refl
  where
    go : (o : Outcome Panic (Unit {0} × World)) → internal_transfer s r x memo w ≡ o → Mono a w o
    go (done (_, t)) e =
        let (u, v, _, er, _, _, _, same) = transfer_inv s r x memo w t e in
        rw same (transferred_mono a s r u v x memo w ne er)
    go (panic e) _ = tt

register-Mono : (a b : AccountId) (w : World) → Mono a w (internal_register_account b w)
unfolding internal_register_account ft_balance_of
register-Mono a b w = elim (ℕ_discrete a b) [
  | yes p ↦ grind (arith, lookup-insert_self, lookup-insert_ne)
  | no p ↦ grind (arith, lookup-insert_self, lookup-insert_ne)
]

deposit_for-Mono : (a b : AccountId) (env : Env) (w : World) → Mono a w (deposit_for env b w)
unfolding deposit_for deposit_new deposit_again ft_balance_of
deposit_for-Mono a b env w = ground (arith, register-Mono a b w)

unregister-Mono :
    (a : AccountId) (env : Env) (force : Option Bool) (w : World)
    → a ≢ env.predecessor_account_id
    → Mono a w (internal_storage_unregister env force w)
unfolding internal_storage_unregister ft_balance_of
unregister-Mono a env force w ne =
    ground (arith, lookup-erase_ne a env.predecessor_account_id w.token.accounts ne)

-- The request is the callback of a transfer that `a` received.
abbrev pub Settles : AccountId → Request → Type 0
Settles a (resolve_transfer p s r x) = a ≡ r
Settles a (transfer _ _ _) = ⊥
Settles a (transfer_call _ _ _ _) = ⊥
Settles a (deposit _ _) = ⊥
Settles a (unregister _) = ⊥
Settles a (withdraw _) = ⊥

module _ (from_slice : List ℕ → Option Balance) (a : AccountId) where
  Settled-sender_mono :
      (s r : AccountId) (x refund : Balance) (w t : World) (used b : Balance)
      → Settled s r x refund w t used b
      → s ≢ r
      → ft_balance_of w.token s ≤ ft_balance_of t.token s
  Settled-sender_mono s r x refund w t used b settled ne =
      elim (Option-cases (lookup s w.token.accounts)) [
        | inl absent ↦ omega (arith, settled.sender ne, settled.gone absent)
        | inr (v, e) ↦ omega (arith, settled.sender ne, settled.back (λ k. ground (arith, e, k)))
      ]

  Settled-mono :
      (s r : AccountId) (x refund : Balance) (w t : World) (used b : Balance)
      → Settled s r x refund w t used b
      → a ≢ r
      → ft_balance_of w.token a ≤ ft_balance_of t.token a
  unfolding ft_balance_of
  Settled-mono s r x refund w t used b settled ne = elim (ℕ_discrete a s) [
    | yes p ↦
        subst (λ c. ft_balance_of w.token c ≤ ft_balance_of t.token c) (sym p)
          (Settled-sender_mono s r x refund w t used b settled (λ e. ne (p ∙ e)))
    | no p ↦ let same = settled.others a p ne in ground arith
  ]

  ft_transfer-Mono :
      (env : Env) (r : AccountId) (x : Balance) (memo : Option String) (w : World)
      → a ≢ env.predecessor_account_id
      → Mono a w (ft_transfer env r x memo w)
  unfolding ft_transfer
  ft_transfer-Mono env r x memo w ne =
      ground (arith, transfer-Mono a env.predecessor_account_id r x memo w ne)

  ft_transfer_call-Mono :
      (env : Env) (r : AccountId) (x : Balance) (memo : Option String) (msg : String) (w : World)
      → a ≢ env.predecessor_account_id
      → Mono a w (ft_transfer_call env r x memo msg w)
  unfolding ft_transfer_call
  ft_transfer_call-Mono env r x memo msg w ne =
      ground (arith, transfer-Mono a env.predecessor_account_id r x memo w ne)

  storage_deposit-Mono :
      (env : Env) (b : Option AccountId) (only : Option Bool) (w : World)
      → Mono a w (storage_deposit env b only w)
  unfolding storage_deposit
  storage_deposit-Mono env b only w = ground (arith, deposit_for-Mono a (beneficiary env b) env w)

  storage_unregister-Mono :
      (env : Env) (force : Option Bool) (w : World)
      → a ≢ env.predecessor_account_id
      → Mono a w (storage_unregister env force w)
  unfolding storage_unregister
  storage_unregister-Mono env force w ne = ground (arith, unregister-Mono a env force w ne)

  storage_withdraw-Mono :
      (env : Env) (amount : Option ℕ) (w : World) → Mono a w (storage_withdraw env amount w)
  unfolding storage_withdraw
  storage_withdraw-Mono env amount w = ground arith

  resolve-Mono :
      (p : PromiseResult) (s r : AccountId) (x : Balance) (w : World)
      → IsValid w.token
      → a ≢ r
      → Mono a w (ft_resolve_transfer from_slice p s r x w)
  unfolding ft_resolve_transfer
  resolve-Mono p s r x w valid ne =
      let (used, b, t, e, settled) = resolve_settles from_slice p s r x w valid in
      rw (e, Mono) (Settled-mono s r x _ w t used b settled ne)

  -- Only the account's own calls lower its balance, and the callbacks of transfers that it
  -- received: any other call that returns leaves it at least what it was.
  pub perform_mono :
      (env : Env) (q : Request) (w t : World)
      → IsValid w.token
      → a ≢ env.predecessor_account_id
      → ¬ Settles a q
      → perform from_slice env q w ≡ done t
      → ft_balance_of w.token a ≤ ft_balance_of t.token a
  unfolding perform
  perform_mono env (transfer r x memo) w t valid ne other e =
      ground (arith, ft_transfer-Mono env r x memo w ne)
  perform_mono env (transfer_call r x memo msg) w t valid ne other e =
      ground (arith, ft_transfer_call-Mono env r x memo msg w ne)
  perform_mono env (resolve_transfer p s r x) w t valid ne other e =
      ground (arith, resolve-Mono p s r x w valid other)
  perform_mono env (deposit account only) w t valid ne other e =
      ground (arith, storage_deposit-Mono env account only w)
  perform_mono env (unregister force) w t valid ne other e =
      ground (arith, storage_unregister-Mono env force w ne)
  perform_mono env (withdraw amount) w t valid ne other e =
      ground (arith, storage_withdraw-Mono env amount w)

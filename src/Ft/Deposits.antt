-- ===== src/Ft/Deposits.antt =====
-- The results of `storage_deposit` and `storage_unregister`
-- (near-contract-standards/src/fungible_token/storage_impl.rs).
use near_runtime_rs.Base.{
  ℕ, ◌+◌, ◌-◌, ◌≤◌, ◌≡◌, ◌≢◌, ◌⊎◌, Bool, true, false, Option, none, some, List, [], ◌∷◌, ◌++◌, refl,
  ap, ◌∙◌, ltb, if◌then◌else◌, ◌==◌, ℕ_discrete, Option-cases, subst, inl, inr, done, arith,
}
use near_runtime_rs.Base.Dict.{
  Dict, nat_key, lookup, insert, lookup-insert_self, lookup-erase_ne, erase,
}
use near_runtime_rs.Ft.State.{
  AccountId, Balance, FungibleToken, Panic, World, Env, set_accounts, set_total, emit, Effect,
}
use near_runtime_rs.Ft.State
use near_runtime_rs.Ft.Storage.{
  storage_balance_bounds, internal_storage_unregister, deposit_again, deposit_new, deposit_for,
  storage_deposit, beneficiary,
}
use near_runtime_rs.Ft.Invariant.{IsValid}
use near_runtime_rs.Ft.Registration.{unregister_found_done}

-- The yoctoNEAR that the effects pay out to an account.
abbrev pub paid_to : AccountId → List Effect → ℕ
paid_to c [] = 0
paid_to c (State.Effect.transfer_near to n ∷ es) = (if to == c then n else 0) + paid_to c es
paid_to c (State.Effect.ft_transfer_event _ _ _ _ ∷ es) = paid_to c es
paid_to c (State.Effect.ft_burn_event _ _ _ ∷ es) = paid_to c es
paid_to c (State.Effect.log _ ∷ es) = paid_to c es
paid_to c (State.Effect.log_about _ _ ∷ es) = paid_to c es

paid_to-append :
    (c : AccountId) (xs ys : List Effect) → paid_to c (xs ++ ys) ≡ paid_to c xs + paid_to c ys
paid_to-append c [] ys = omega arith
paid_to-append c (State.Effect.transfer_near to n ∷ es) ys = omega (arith, paid_to-append c es ys)
paid_to-append c (State.Effect.ft_transfer_event _ _ _ _ ∷ es) ys = paid_to-append c es ys
paid_to-append c (State.Effect.ft_burn_event _ _ _ ∷ es) ys = paid_to-append c es ys
paid_to-append c (State.Effect.log _ ∷ es) ys = paid_to-append c es ys
paid_to-append c (State.Effect.log_about _ _ ∷ es) ys = paid_to-append c es ys

-- The state after `refund_to`.
refunded_to : AccountId → ℕ → World → World
refunded_to to n w = if ltb 0 n then emit (State.Effect.transfer_near to n) w else w

refunded_to-token : (to : AccountId) (n : ℕ) (w : World) → (refunded_to to n w).token ≡ w.token
unfolding refunded_to
refunded_to-token to n w = ground arith

refunded_to_paid :
    (c to : AccountId) (n : ℕ) (w : World)
    → paid_to c (refunded_to to n w).effects ≡ paid_to c w.effects + (if to == c then n else 0)
unfolding refunded_to
refunded_to_paid c to n w =
    ground (arith, paid_to-append c w.effects (State.Effect.transfer_near to n ∷ []))

deposit_new_done :
    (env : Env) (a : AccountId) (w : World)
    → lookup a w.token.accounts ≡ none
    → (storage_balance_bounds env w.token).min ≤ env.attached_deposit
    → deposit_new env a w
      ≡ done (
        tt,
        refunded_to env.predecessor_account_id
            (env.attached_deposit - (storage_balance_bounds env w.token).min)
            (set_accounts (insert a 0 w.token.accounts) w),
      )
unfolding deposit_new refunded_to
deposit_new_done env a w fresh h = ground arith

deposit_for_new :
    (env : Env) (a : AccountId) (w : World)
    → lookup a w.token.accounts ≡ none
    → deposit_for env a w ≡ deposit_new env a w
unfolding deposit_for
deposit_for_new env a w fresh = ground arith

bounds_same :
    (env : Env) (t : FungibleToken) (d : Dict AccountId Balance)
    → storage_balance_bounds env (record t { accounts = d }) ≡ storage_balance_bounds env t
unfolding storage_balance_bounds
bounds_same env t d = refl

deposit_again_done :
    (env : Env) (w : World)
    → deposit_again env w
      ≡ done (
        tt,
        refunded_to env.predecessor_account_id env.attached_deposit
            (emit (State.Effect.log "The account is already registered, refunding the deposit") w),
      )
unfolding deposit_again refunded_to
deposit_again_done env w = ground arith

-- A first deposit of at least the minimum registers the account with a balance of zero, changes
-- no other account and not the supply, and pays all but the minimum back to the caller, and
-- nothing to anybody else.
pub storage_deposit_new :
    (env : Env) (account : Option AccountId) (only : Option Bool) (w : World)
    → lookup (beneficiary env account) w.token.accounts ≡ none
    → (storage_balance_bounds env w.token).min ≤ env.attached_deposit
    → (t : World) × (storage_deposit env account only w
        ≡ done (record { total = (storage_balance_bounds env w.token).min; available = 0 }, t))
      × (t.token.accounts ≡ insert (beneficiary env account) 0 w.token.accounts)
      × (t.token.total_supply ≡ w.token.total_supply)
      × ((c : AccountId)
          → paid_to c t.effects
            ≡ paid_to c w.effects
              + (if env.predecessor_account_id == c
                  then env.attached_deposit - (storage_balance_bounds env w.token).min
                  else 0))
unfolding storage_deposit
storage_deposit_new env account only w fresh enough =
    let a = beneficiary env account in
    let min = (storage_balance_bounds env w.token).min in
    let w' = set_accounts (insert a 0 w.token.accounts) w in
    let t = refunded_to env.predecessor_account_id (env.attached_deposit - min) w' in
    let same : t.token ≡ w'.token = refunded_to-token _ _ w' in
    (
      t,
      ground (
        arith,
        deposit_for_new env a w fresh ∙ deposit_new_done env a w fresh enough,
        same,
        bounds_same env w.token (insert a 0 w.token.accounts),
        lookup-insert_self a 0 w.token.accounts,
      ),
      ap (λ k. k.accounts) same,
      ap (λ k. k.total_supply) same,
      λ c. refunded_to_paid c env.predecessor_account_id (env.attached_deposit - min) w',
    )

-- A deposit for an account that is registered changes nothing and goes back to the caller whole.
pub storage_deposit_again :
    (env : Env) (account : Option AccountId) (only : Option Bool) (b : Balance) (w : World)
    → lookup (beneficiary env account) w.token.accounts ≡ some b
    → (t : World) × (storage_deposit env account only w
        ≡ done (record { total = (storage_balance_bounds env w.token).min; available = 0 }, t))
      × (t.token ≡ w.token)
      × ((c : AccountId)
          → paid_to c t.effects
            ≡ paid_to c w.effects
              + (if env.predecessor_account_id == c then env.attached_deposit else 0))
unfolding storage_deposit deposit_for
storage_deposit_again env account only b w e =
    let w' = emit (State.Effect.log "The account is already registered, refunding the deposit") w in
    let t = refunded_to env.predecessor_account_id env.attached_deposit w' in
    let same : t.token ≡ w.token = refunded_to-token _ _ w' in
    (
      t,
      ground (arith, deposit_again_done env w, same),
      same,
      λ c. omega (
        arith,
        refunded_to_paid c env.predecessor_account_id env.attached_deposit w',
        paid_to-append c w.effects
            (State.Effect.log "The account is already registered, refunding the deposit" ∷ []),
      ),
    )

was_forced :
    (env : Env) (force : Option Bool) (w : World) {removed : Option (AccountId × Balance)}
    {t : World} (b : Balance)
    → internal_storage_unregister env force w ≡ done (removed, t)
    → lookup env.predecessor_account_id w.token.accounts ≡ some b
    → env.attached_deposit ≡ 1
    → b ≢ 0
    → force ≡ some true
unfolding internal_storage_unregister
was_forced env none w b h e one p = absurd (ground (arith, one, e, p, h))
was_forced env (some false) w b h e one p = absurd (ground (arith, one, e, p, h))
was_forced env (some true) w b h e one p = refl

may_unregister :
    (env : Env) (force : Option Bool) (w : World) {removed : Option (AccountId × Balance)}
    {t : World} (b : Balance)
    → IsValid w.token
    → internal_storage_unregister env force w ≡ done (removed, t)
    → lookup env.predecessor_account_id w.token.accounts ≡ some b
    → (env.attached_deposit ≡ 1)
      × ((b ≡ 0) ⊎ (force ≡ some true))
      × (removed ≡ some (env.predecessor_account_id, b))
      × (t.token.accounts ≡ erase env.predecessor_account_id w.token.accounts)
unfolding internal_storage_unregister
may_unregister env force w b valid h e =
    let r = unregister_found_done env env.predecessor_account_id b w valid e in
    elim (ℕ_discrete env.attached_deposit 1) [
      | no p ↦ absurd (ground (arith, p, h))
      | yes one ↦ elim (ℕ_discrete b 0) [
        | yes p ↦ (one, inl p, ground (arith, one, e, p, h, r), ground (arith, one, e, p, h, r))
        | no p ↦
            let f = was_forced env force w b h e one p in
            (one, inr f, ground (arith, one, e, f, h, r), ground (arith, one, e, f, h, r))
      ]
    ]

unregister_absent :
    (env : Env) (force : Option Bool) (w : World) {removed : Option (AccountId × Balance)}
    {t : World}
    → internal_storage_unregister env force w ≡ done (removed, t)
    → lookup env.predecessor_account_id w.token.accounts ≡ none
    → t.token ≡ w.token
unfolding internal_storage_unregister
unregister_absent env force w h e = ground (arith, e, h)

-- A removal that returns from a valid state leaves every account with what it has, except at most
-- that of the caller, who attached one yoctoNEAR, and whose balance was zero or who forced the
-- removal.
pub unregister_inv :
    (env : Env) (force : Option Bool) (w : World) {removed : Option (AccountId × Balance)}
    {t : World} (c : AccountId) (b : Balance)
    → IsValid w.token
    → internal_storage_unregister env force w ≡ done (removed, t)
    → lookup c w.token.accounts ≡ some b
    → (lookup c t.token.accounts ≡ some b)
      ⊎ ((c ≡ env.predecessor_account_id)
          × (env.attached_deposit ≡ 1)
          × ((b ≡ 0) ⊎ (force ≡ some true))
          × (removed ≡ some (c, b)))
unregister_inv env force w {t = t} c b valid h e =
    elim (Option-cases (lookup env.predecessor_account_id w.token.accounts)) [
      | inl gone ↦ inl (ap (λ k. lookup c k.accounts) (unregister_absent env force w h gone) ∙ e)
      | inr (v, found) ↦
          let (one, why, out, left) = may_unregister env force w v valid h found in
          elim (ℕ_discrete c env.predecessor_account_id) [
            | yes p ↦
                let same : v ≡ b = ground (arith, p, e, found) in
                inr (
                  p,
                  one,
                  subst (λ k. (k ≡ 0) ⊎ (force ≡ some true)) same why,
                  ground (arith, out, same, p),
                )
            | no p ↦ inl (
                ap (lookup c) left
                ∙ lookup-erase_ne c env.predecessor_account_id w.token.accounts p
                ∙ e)
          ]
    ]

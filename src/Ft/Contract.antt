-- ===== src/Ft/Contract.antt =====
-- The token as a contract: any account may send any of the public calls, in any order, and the
-- host throws the changes of a call that panics away
-- (near-contract-standards/src/fungible_token/core_impl.rs and storage_impl.rs).
use near_runtime_rs.Base.{ℕ, Bool, Option, List, [], ◌∷◌, Outcome, done, panic, arith}
use near_runtime_rs.Base.Dict.{nat_key}
use near_runtime_rs.Ft.State.{AccountId, Balance, Panic, World, Env}
use near_runtime_rs.Ft.Core.{ft_transfer, ft_transfer_call}
use near_runtime_rs.Ft.Resolve.{PromiseResult, ft_resolve_transfer}
use near_runtime_rs.Ft.Storage.{storage_deposit, storage_unregister, storage_withdraw}
use near_runtime_rs.Ft.Invariant.{IsValid, Preserves, Keeps}
use near_runtime_rs.Ft.Transfer.{transfer-Preserves}
use near_runtime_rs.Ft.Settlement.{ft_resolve_transfer-Preserves}
use near_runtime_rs.Ft.Registration.{
  storage_deposit-Preserves, storage_unregister-Preserves, storage_withdraw-Preserves,
}
use Prim.Native.String.{String}

pub data Request : Type 0 where
  transfer : AccountId → Balance → Option String → Request
  transfer_call : AccountId → Balance → Option String → String → Request
  resolve_transfer : PromiseResult → AccountId → AccountId → Balance → Request
  deposit : Option AccountId → Option Bool → Request
  unregister : Option Bool → Request
  withdraw : Option ℕ → Request

abbrev discard : {A : Type 0} → Outcome Panic (A × World) → Outcome Panic World
discard (done (a, w)) = done w
discard (panic e) = panic e

-- The host keeps the state of a call that returns, and undoes one that panics.
abbrev pub or_revert : World → Outcome Panic World → World
or_revert w (done t) = t
or_revert w (panic e) = w

module _ (from_slice : List ℕ → Option Balance) where
  unfoldable pub perform : Env → Request → World → Outcome Panic World
  perform env (transfer r x memo) w = discard (ft_transfer env r x memo w)
  perform env (transfer_call r x memo msg) w = discard (ft_transfer_call env r x memo msg w)
  perform env (resolve_transfer p s r x) w = discard (ft_resolve_transfer from_slice p s r x w)
  perform env (deposit a only) w = discard (storage_deposit env a only w)
  perform env (unregister force) w = discard (storage_unregister env force w)
  perform env (withdraw amount) w = discard (storage_withdraw env amount w)

  -- The state after a sequence of calls; a call that panics leaves the state alone.
  unfoldable pub run : List (Env × Request) → World → World
  run [] w = w
  run ((env, q) ∷ qs) w = run qs (or_revert w (perform env q w))

  ft_transfer-Preserves :
      (env : Env) (r : AccountId) (x : Balance) (memo : Option String)
      → Preserves (ft_transfer env r x memo)
  unfolding ft_transfer
  ft_transfer-Preserves env r x memo w v =
      ground (arith, transfer-Preserves env.predecessor_account_id r x memo w v)

  ft_transfer_call-Preserves :
      (env : Env) (r : AccountId) (x : Balance) (memo : Option String) (msg : String)
      → Preserves (ft_transfer_call env r x memo msg)
  unfolding ft_transfer_call
  ft_transfer_call-Preserves env r x memo msg w v =
      ground (arith, transfer-Preserves env.predecessor_account_id r x memo w v)

  abbrev Stays : Outcome Panic World → Type 0
  Stays (done t) = IsValid t.token
  Stays (panic e) = Unit

  discard-Stays : {A : Type 0} (o : Outcome Panic (A × World)) → Keeps o → Stays (discard o)
  discard-Stays (done (a, t)) k = k
  discard-Stays (panic e) k = tt

  pub perform-IsValid :
      (env : Env) (q : Request) (w : World) → IsValid w.token → Stays (perform env q w)
  unfolding perform
  perform-IsValid env (transfer r x memo) w v =
      discard-Stays _ (ft_transfer-Preserves env r x memo w v)
  perform-IsValid env (transfer_call r x memo msg) w v =
      discard-Stays _ (ft_transfer_call-Preserves env r x memo msg w v)
  perform-IsValid env (resolve_transfer p s r x) w v =
      discard-Stays _ (ft_resolve_transfer-Preserves from_slice p s r x w v)
  perform-IsValid env (deposit a only) w v =
      discard-Stays _ (storage_deposit-Preserves env a only w v)
  perform-IsValid env (unregister force) w v =
      discard-Stays _ (storage_unregister-Preserves env force w v)
  perform-IsValid env (withdraw amount) w v =
      discard-Stays _ (storage_withdraw-Preserves env amount w v)

  -- Whatever calls arrive in whatever order, in-flight callbacks among them, a valid token stays
  -- valid: the supply is the sum of the balances and fits a `u128`.
  pub run-IsValid :
      (qs : List (Env × Request)) (w : World) → IsValid w.token → IsValid (run qs w).token
  unfolding run
  run-IsValid [] w v = v
  run-IsValid ((env, q) ∷ qs) w v =
      run-IsValid qs _ (next (perform env q w) (perform-IsValid env q w v))
    where
      next : (o : Outcome Panic World) → Stays o → IsValid (or_revert w o).token
      next (done t) k = k
      next (panic e) k = v

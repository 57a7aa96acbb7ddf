-- ===== src/Ft/TakeBack.antt =====
-- A transfer that is taken back
-- (near-contract-standards/src/fungible_token/core_impl.rs, ft_transfer_call and its callback).
use near_runtime_rs.Base.{
  ℕ, ◌+◌, ◌-◌, ◌≤◌, ◌<◌, ◌≡◌, ◌≢◌, Option, some, List, min, done, arith, subst, ap, refl, ◌∙◌,
}
use near_runtime_rs.Base.Dict.{nat_key, lookup, insert, lookup-insert_self, lookup-insert_ne}
use near_runtime_rs.Ft.State.{AccountId, Balance, World}
use near_runtime_rs.Ft.Core.{internal_transfer}
use near_runtime_rs.Ft.Resolve.{
  failed, unused_amount, take_refund, resolve_unused, internal_ft_resolve_transfer,
}
use near_runtime_rs.Ft.Invariant.{IsValid, Keeps}
use near_runtime_rs.Ft.Transfer.{transferred, transfer_done, transfer-Preserves}
use near_runtime_rs.Ft.Refund.{refunded, take_refund_sender}
use near_runtime_rs.Ft.Settlement.{resolve_unused_refund}
use Prim.Native.String.{String}

module _ (s r : AccountId) (x u v : Balance) (memo : Option String) (w : World)
    (valid : IsValid w.token) (ne : s ≢ r) (pos : 0 < x) (es : lookup s w.token.accounts ≡ some u)
    (er : lookup r w.token.accounts ≡ some v) (h : x ≤ u) where
  abbrev after : World
  after = transferred s r u v x memo w

  after-IsValid : IsValid after.token
  after-IsValid =
      subst Keeps (transfer_done s r x u v memo w valid ne pos es er h)
        (transfer-Preserves s r x memo w valid)

  receiver_after : lookup r after.token.accounts ≡ some (v + x)
  receiver_after = lookup-insert_self r (v + x) _

  sender_after : lookup s (insert r (v + x - x) after.token.accounts) ≡ some (u - x)
  sender_after = grind (arith, lookup-insert_self, lookup-insert_ne)

  abbrev back : World
  back =
      refunded s r x (v + x) x after after-IsValid receiver_after (omega arith) (omega arith)
        (u - x)

  back_balance : (a : AccountId) → lookup a back.token.accounts ≡ lookup a w.token.accounts
  back_balance a = grind (arith, lookup-insert_self, lookup-insert_ne)

  min_self : min (v + x) x ≡ x
  min_self = omega arith

  resolve_back : resolve_unused s r x x after ≡ done ((0, 0), back)
  resolve_back =
      resolve_unused_refund s r x after after-IsValid x (v + x) receiver_after (omega arith)
      ∙ ap (λ y. take_refund s r x (v + x) y after) min_self
      ∙ take_refund_sender s r x (v + x) x after after-IsValid receiver_after (omega arith)
          (omega arith) (u - x) sender_after
      ∙ ap (λ y. done ((y, 0), back)) (let e : x - x ≡ 0 = omega arith in e)

-- A transfer whose receiver spends nothing before its call fails is taken back whole: all the
-- balances and the supply are the old ones, nothing counts as used and nothing is burned.
pub transfer_then_failed :
    (from_slice : List ℕ → Option Balance) (s r : AccountId) (x u v : Balance)
    (memo : Option String) (w : World)
    → IsValid w.token
    → s ≢ r
    → 0 < x
    → lookup s w.token.accounts ≡ some u
    → lookup r w.token.accounts ≡ some v
    → x ≤ u
    → (w' t : World) × (internal_transfer s r x memo w ≡ done (tt, w'))
      × (internal_ft_resolve_transfer from_slice failed s r x w' ≡ done ((0, 0), t))
      × ((a : AccountId) → lookup a t.token.accounts ≡ lookup a w.token.accounts)
      × (t.token.total_supply ≡ w.token.total_supply)
unfolding internal_ft_resolve_transfer unused_amount
transfer_then_failed from_slice s r x u v memo w valid ne pos es er h = (
  after s r x u v memo w valid ne pos es er h,
  back s r x u v memo w valid ne pos es er h,
  transfer_done s r x u v memo w valid ne pos es er h,
  resolve_back s r x u v memo w valid ne pos es er h,
  back_balance s r x u v memo w valid ne pos es er h,
  refl,
)

-- ===== src/Nft/Listed.antt =====
-- The list of an owner's tokens and the table of owners agree
-- (near-contract-standards/src/non_fungible_token/core/core_impl.rs).
use near_runtime_rs.Base.{
  ℕ, ◌+◌, ◌-◌, ◌≡◌, ◌≢◌, List, [], ◌∷◌, ◌==◌, if◌then◌else◌, arith, refl, false,
}
use near_runtime_rs.Nft.State.{TokenId}
use near_runtime_rs.Nft.TokenSet.{
  count, add, remove, member, push_last, last_of, but_last, last_first,
}

pub one_if : TokenId → TokenId → ℕ
one_if s t = if s == t then 1 else 0

count-push_last :
    (s t : TokenId) (xs : List TokenId)
    → count s (push_last t xs) ≡ count s xs + (if s == t then 1 else 0)
unfolding push_last
count-push_last s t [] = omega arith
count-push_last s t (x ∷ xs) = omega (arith, count-push_last s t xs)

member-count : (t : TokenId) (xs : List TokenId) → count t xs ≡ 0 → member t xs ≡ false
member-count t [] h = refl
member-count t (x ∷ xs) h = ground (arith, member-count t xs)

pub count-add :
    (s t : TokenId) (xs : List TokenId)
    → count t xs ≡ 0
    → count s (add t xs) ≡ count s xs + (if s == t then 1 else 0)
unfolding add
count-add s t xs h = ground (arith, member-count t xs h, count-push_last s t xs)

count-last :
    (s x : TokenId) (xs : List TokenId) → count s (last_of x xs ∷ but_last x xs) ≡ count s (x ∷ xs)
unfolding last_of but_last
count-last s x [] = refl
count-last s x (y ∷ ys) = omega (arith, count-last s y ys)

count-last_first : (s : TokenId) (xs : List TokenId) → count s (last_first xs) ≡ count s xs
unfolding last_first
count-last_first s [] = refl
count-last_first s (x ∷ xs) = count-last s x xs

pub count-remove_ne :
    (s t : TokenId) (xs : List TokenId) → s ≢ t → count s (remove t xs) ≡ count s xs
unfolding remove
count-remove_ne s t [] h = refl
count-remove_ne s t (x ∷ xs) h = ground (arith, count-last_first s xs, count-remove_ne s t xs h)

pub count-remove_self : (t : TokenId) (xs : List TokenId) → count t (remove t xs) ≡ count t xs - 1
unfolding remove
count-remove_self t [] = refl
count-remove_self t (x ∷ xs) = ground (arith, count-last_first t xs, count-remove_self t xs)

-- ===== src/Nft/TokenSet.antt =====
-- The set of an owner's tokens, as the list of the elements of an `UnorderedSet` in their order:
-- a new element goes to the end, and the last element takes the place of a removed one.
use near_runtime_rs.Base.{ℕ, ◌+◌, List, [], ◌∷◌, ◌==◌, if◌then◌else◌, Bool, true, false, ◌||◌}
use near_runtime_rs.Nft.State.{TokenId}

-- How many times a token is listed.
abbrev pub count : TokenId → List TokenId → ℕ
count t [] = 0
count t (x ∷ xs) = (if t == x then 1 else 0) + count t xs

abbrev pub is_empty : {A : Type 0} → List A → Bool
is_empty [] = true
is_empty (_ ∷ _) = false

abbrev pub member : TokenId → List TokenId → Bool
member t [] = false
member t (x ∷ xs) = (t == x) || member t xs

unfoldable pub push_last : TokenId → List TokenId → List TokenId
push_last t [] = t ∷ []
push_last t (x ∷ xs) = x ∷ push_last t xs

unfoldable pub add : TokenId → List TokenId → List TokenId
unfolding push_last
add t xs = if member t xs then xs else push_last t xs

unfoldable pub last_of : TokenId → List TokenId → TokenId
last_of x [] = x
last_of x (y ∷ ys) = last_of y ys

unfoldable pub but_last : TokenId → List TokenId → List TokenId
but_last x [] = []
but_last x (y ∷ ys) = x ∷ but_last y ys

-- The last element, then the others: what is left when the first is removed.
unfoldable pub last_first : List TokenId → List TokenId
unfolding last_of but_last
last_first [] = []
last_first (x ∷ xs) = last_of x xs ∷ but_last x xs

unfoldable pub remove : TokenId → List TokenId → List TokenId
unfolding last_first
remove t [] = []
remove t (x ∷ xs) = if t == x then last_first xs else x ∷ remove t xs

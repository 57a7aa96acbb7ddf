-- ===== src/Store/Trie.antt =====
-- The contract's storage as the host keeps it, the keys of indexed elements, and the serialization
-- of elements (near-sdk/src/environment/env.rs, near-sdk/src/store/index_map.rs).
use near_runtime_rs.Base.{
  ℕ, zero, suc, ◌/◌, ◌%◌, ◌^◌, ◌<◌, ◌≡◌, ◌≢◌, Option, none, some, List, [], ◌∷◌, ◌++◌, ite, arith,
  u32_size, ℕ_discrete,
}
use native.Mathlib.Nat.{pow-suc}

abbrev pub Bytes : Type 0
Bytes = List ℕ

-- `env::storage_read` of every key.
abbrev pub Trie : Type 0
Trie = Bytes → Option Bytes

pub Bytes-discrete : Discrete Bytes
Bytes-discrete = hlevel ℕ_discrete

-- `env::storage_write` and `env::storage_remove`.
unfoldable pub storage_write : Bytes → Bytes → Trie → Trie
storage_write k v t j = ite (Bytes-discrete j k) (some v) (t j)

unfoldable pub storage_remove : Bytes → Trie → Trie
storage_remove k t j = ite (Bytes-discrete j k) none (t j)

pub write_self : (k v : Bytes) (t : Trie) → storage_write k v t k ≡ some v
unfolding storage_write
write_self k v t = ground arith

pub write_ne : (k j v : Bytes) (t : Trie) → j ≢ k → storage_write k v t j ≡ t j
unfolding storage_write
write_ne k j v t ne = ground arith

pub remove_self : (k : Bytes) (t : Trie) → storage_remove k t k ≡ none
unfolding storage_remove
remove_self k t = ground arith

pub remove_ne : (k j : Bytes) (t : Trie) → j ≢ k → storage_remove k t j ≡ t j
unfolding storage_remove
remove_ne k j t ne = ground arith

-- The `w` bytes of a number, the lowest first.
unfoldable pub to_le_bytes : ℕ → ℕ → Bytes
to_le_bytes zero n = []
to_le_bytes (suc w) n = (n % 256) ∷ to_le_bytes w (n / 256)

div_bound : (w n : ℕ) → n < 256 ^ suc w → n / 256 < 256 ^ w
div_bound w n h = omega (arith, pow-suc 256 w)

pub to_le_bytes-injective :
    (w m n : ℕ) → m < 256 ^ w → n < 256 ^ w → to_le_bytes w m ≡ to_le_bytes w n → m ≡ n
unfolding to_le_bytes
to_le_bytes-injective zero m n hm hn e = omega arith
to_le_bytes-injective (suc w) m n hm hn e =
    let low : m % 256 ≡ n % 256 = cc in
    let high =
      to_le_bytes-injective w (m / 256) (n / 256) (div_bound w m hm) (div_bound w n hn) (cc) in
    omega arith

-- The key of the element at an index: the prefix and the four bytes of the index.
unfoldable pub index_to_lookup_key : Bytes → ℕ → Bytes
index_to_lookup_key prefix index = prefix ++ to_le_bytes 4 index

pub append_left_injective : (p xs ys : Bytes) → p ++ xs ≡ p ++ ys → xs ≡ ys
append_left_injective [] xs ys e = e
append_left_injective (x ∷ p) xs ys e = append_left_injective p xs ys (cc)

-- Different indices have different keys.
pub lookup_key-injective :
    (prefix : Bytes) (i j : ℕ)
    → i < u32_size
    → j < u32_size
    → index_to_lookup_key prefix i ≡ index_to_lookup_key prefix j
    → i ≡ j
unfolding index_to_lookup_key
lookup_key-injective prefix i j hi hj e =
    to_le_bytes-injective 4 i j (omega arith) (omega arith) (append_left_injective prefix _ _ e)

-- Reading and writing of elements is the work of `borsh`: what it wrote it reads back.
pub record Borsh (T : Type 0) : Type 0 where
  pub serialize : T → Option Bytes
  pub deserialize : Bytes → Option T
  pub deserialize-serialize : (x : T) (b : Bytes) → serialize x ≡ some b → deserialize b ≡ some x

-- ===== src/Collections/Holds.antt =====
-- When the trie holds the elements of the uncached vector, and writes of one element
-- (near-sdk/src/collections/vector.rs).
use near_runtime_rs.Base.{
  ℕ, zero, suc, ◌≡◌, ◌≢◌, ◌<◌, ◌≤◌, some, none, List, [], ◌∷◌, u64_size, arith, refl, ap, sym, ◌∙◌,
  subst, ℕ_discrete, length, get_elem?, set, get_elem?_bound,
}
use near_runtime_rs.Store.Trie.{
  Bytes, Trie, storage_write, to_le_bytes-injective, append_left_injective, write_self, write_ne,
}
use near_runtime_rs.Collections.Vector.{Storage, index_to_lookup_key}

-- The raw elements of the vector, which are in the trie under the keys of their indices.
pub record Holds (s : Storage) (xs : List Bytes) : Type 0 where
  pub measured : s.vec.len ≡ length xs
  pub bounded : length xs < u64_size
  pub stored :
      (i : ℕ) (x : Bytes)
      → get_elem? xs i ≡ some x
      → s.trie (index_to_lookup_key (s.vec.prefix) i) ≡ some x

-- Of the elements up to the index `n`, the entry of the last is removed; no key of another kind
-- changes.
pub record Frees (n : ℕ) (s u : Storage) : Type 0 where
  pub same_prefix : u.vec.prefix ≡ s.vec.prefix
  pub removed : u.trie (index_to_lookup_key (s.vec.prefix) n) ≡ none
  pub framed :
      (k : Bytes)
      → ((i : ℕ) → i ≤ n → k ≢ index_to_lookup_key (s.vec.prefix) i)
      → u.trie k ≡ s.trie k

pub key_injective :
    (p : Bytes) (i j : ℕ)
    → i < u64_size
    → j < u64_size
    → i ≢ j
    → index_to_lookup_key p i ≢ index_to_lookup_key p j
unfolding index_to_lookup_key
key_injective p i j hi hj ne e =
    ne (to_le_bytes-injective 8 i j (omega arith) (omega arith) (append_left_injective p _ _ e))

-- A write of one element.
pub write_stored :
    (p : Bytes) (t : Trie) (xs : List Bytes) (i : ℕ) (x : Bytes)
    → length xs < u64_size
    → i < length xs
    → ((j : ℕ) (y : Bytes) → get_elem? xs j ≡ some y → j ≢ i → t (index_to_lookup_key p j) ≡ some y)
    → get_elem? xs i ≡ some x
    → (j : ℕ) (y : Bytes) → get_elem? xs j ≡ some y
    → storage_write (index_to_lookup_key p i) x t (index_to_lookup_key p j) ≡ some y
write_stored p t xs i x b l st e j y q = elim (ℕ_discrete j i) [
  | yes eq ↦
      subst (λ k. storage_write (index_to_lookup_key p i) x t (index_to_lookup_key p k) ≡ some y)
        (sym eq) (write_self (index_to_lookup_key p i) x t ∙ sym e ∙ ap (get_elem? xs) (sym eq) ∙ q)
  | no ne ↦
      write_ne (index_to_lookup_key p i) (index_to_lookup_key p j) x t
        (key_injective p j i (omega (arith, get_elem?_bound xs j q)) (omega arith) ne)
      ∙ st j y q ne
]

abbrev pub storage : ℕ → Bytes → Trie → Storage
storage n p t = record { vec = record { len = n; prefix = p }; trie = t }

pub set-length : (ys : List Bytes) (i : ℕ) (x : Bytes) → length ys ≤ i → set ys i x ≡ ys
set-length [] i x h = refl
set-length (y ∷ ys) zero x h = absurd (omega arith)
set-length (y ∷ ys) (suc i) x h = ap (◌∷◌ y) (set-length ys i x (omega arith))

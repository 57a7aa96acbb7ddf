-- ===== src/Store/Vector.antt =====
-- The vector on a cached map (near-sdk/src/store/vec/mod.rs and vec/iter.rs).
use near_runtime_rs.Base.{
  ℕ, zero, suc, ◌+◌, ◌-◌, Bool, Option, none, some, done, panic, Action, pure, gets, or_panic,
  modify, require, ◌>>=◌, ◌>>◌, if◌then◌else◌, ◌==◌, ltb, leb, not, u32_size,
}
use near_runtime_rs.Store.Trie.{Bytes, Trie, Borsh}
use near_runtime_rs.Store.IndexMap.{
  IndexMap, Stored, Op, Panic, index_out_of_bounds, inconsistent_state, unwrap_on_none,
}
use near_runtime_rs.Store.IndexMap

-- The vector; its map comes with the host's storage.
pub record Vector (T : Type 0) : Type 0 where
  pub len : ℕ
  pub values : Stored T

abbrev pub VecOp : Type 0 → Type 0 → Type 0
VecOp T A = Action Panic (Vector T) A

module _ {T : Type 0} where
  -- A call of the map.
  abbrev pub on_values : {A : Type 0} → Op T A → VecOp T A
  on_values m v = elim (m v.values) [
    | done (a, s) ↦ done (a, record v { values = s })
    | panic p ↦ panic p
  ]

  abbrev pub set_len : ℕ → Vector T → Vector T
  set_len n v = record v { len = n }

  unfoldable pub new : Bytes → Trie → Vector T
  new prefix t = record { len = 0; values = record { map = IndexMap.new prefix; trie = t } }

  unfoldable pub is_empty : Vector T → Bool
  is_empty v = v.len == 0

  unfoldable pub expect_consistent_state : {A : Type 0} → Option A → VecOp T A
  expect_consistent_state o = or_panic o inconsistent_state

  -- The loop of `clear`, with the number of rounds left and the index.
  unfoldable pub clear_from : ℕ → ℕ → VecOp T (Unit {0})
  clear_from zero i = pure tt
  clear_from (suc n) i = do on_values (IndexMap.set i none); clear_from n (i + 1)

  unfoldable pub clear : VecOp T (Unit {0})
  clear = do n ← gets (λ v. v.len); clear_from n 0; modify (set_len 0)

  unfoldable pub set : ℕ → T → VecOp T (Unit {0})
  set index value = do
    n ← gets (λ v. v.len)
    require (not (leb n index)) index_out_of_bounds
    on_values (IndexMap.set index (some value))

  unfoldable pub push : T → VecOp T (Unit {0})
  unfolding set
  push element = do
    last_idx ← gets (λ v. v.len)
    require (ltb (last_idx + 1) u32_size) index_out_of_bounds
    modify (set_len (last_idx + 1))
    set last_idx element

  module _ (borsh : Borsh T) where
    unfoldable pub flush : VecOp T (Unit {0})
    flush = on_values (IndexMap.flush borsh)

    unfoldable pub get : ℕ → VecOp T (Option T)
    get index = do
      n ← gets (λ v. v.len)
      (if leb n index then pure none else on_values (IndexMap.get borsh index))

    -- `get_mut` followed by the write of `f` through the reference.
    unfoldable pub get_mut : (T → T) → ℕ → VecOp T (Option T)
    get_mut f index = do
      n ← gets (λ v. v.len)
      (if leb n index then pure none else on_values (IndexMap.get_mut borsh f index))

    unfoldable pub swap : ℕ → ℕ → VecOp T (Unit {0})
    swap a b = do
      n ← gets (λ v. v.len)
      require (not (leb n a)) index_out_of_bounds
      require (not (leb n b)) index_out_of_bounds
      on_values (IndexMap.swap borsh a b)

    unfoldable pub pop : VecOp T (Option T)
    pop = do
      n ← gets (λ v. v.len)
      (if n == 0 then pure none else (do
        prev ← on_values (IndexMap.remove borsh (n - 1))
        modify (set_len (n - 1))
        pure prev))

    unfoldable pub swap_remove : ℕ → VecOp T T
    unfolding is_empty expect_consistent_state
    swap_remove index = do
      n ← gets (λ v. v.len)
      empty ← gets is_empty
      require (not empty) index_out_of_bounds
      swap index (n - 1)
      last ← pop
      expect_consistent_state last

    unfoldable pub replace : ℕ → T → VecOp T T
    replace index element = do
      n ← gets (λ v. v.len)
      require (not (leb n index)) index_out_of_bounds
      old ← on_values (IndexMap.insert_element borsh index element)
      or_panic old unwrap_on_none

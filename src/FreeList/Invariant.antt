-- ===== src/FreeList/Invariant.antt =====
-- What makes the slots a free list (near-sdk/src/store/free_list/mod.rs).
use near_runtime_rs.Base.{
  ℕ, zero, suc, ◌+◌, ◌<◌, ◌≡◌, ◌≢◌, Option, none, some, List, [], ◌∷◌, ◌++◌, arith, refl, sym, ◌∙◌,
  subst, length, get_elem?, get_elem?-set_ne, get_elem?-set_self, u32_size, ap,
}
use near_runtime_rs.Base
use near_runtime_rs.FreeList.Defs.{Slot, occupied, empty, FreeList, FreeListIndex}

abbrev pub NotIn : ℕ → List ℕ → Type 0
NotIn i [] = Unit
NotIn i (j ∷ js) = (i ≢ j) × NotIn i js

abbrev pub Nodup : List ℕ → Type 0
Nodup [] = Unit
Nodup (j ∷ js) = NotIn j js × Nodup js

module _ {T : Type 0} where
  -- The empty slots that the links lead to from `o`, in order.
  abbrev pub Chain : List (Slot T) → Option FreeListIndex → List FreeListIndex → Type 0
  Chain es none [] = Unit
  Chain es none (j ∷ js) = ⊥
  Chain es (some i) [] = ⊥
  Chain es (some i) (j ∷ js) =
      (i ≡ j)
      × ((next : Option FreeListIndex) × (get_elem? es j ≡ some (empty next)) × Chain es next js)

  unfoldable pub count_occupied : List (Slot T) → ℕ
  count_occupied [] = 0
  count_occupied (occupied v ∷ es) = suc (count_occupied es)
  count_occupied (empty next ∷ es) = count_occupied es

  -- The links lead through all the empty slots, once each, and the occupied ones are counted.
  pub record IsFreeList (l : FreeList T) (free : List FreeListIndex) : Type 0 where
    pub chain : Chain l.elements l.first_free free
    pub nodup : Nodup free
    pub count : l.occupied_count ≡ count_occupied l.elements
    pub total : count_occupied l.elements + length free ≡ length l.elements
    pub bound : length l.elements < u32_size

  -- A write to a slot that is not among the free ones leaves the links alone.
  pub Chain-set :
      (es : List (Slot T)) (o : Option FreeListIndex) (js : List FreeListIndex) (i : ℕ) (x : Slot T)
      → NotIn i js
      → Chain es o js
      → Chain (Base.set es i x) o js
  Chain-set es none [] i x n c = tt
  Chain-set es none (j ∷ js) i x n c = c
  Chain-set es (some k) [] i x n c = c
  Chain-set es (some k) (j ∷ js) i x (ne, n) (e, (next, found, c)) =
      (e, (next, get_elem?-set_ne es i j x ne ∙ found, Chain-set es next js i x n c))

  -- An occupied slot is not among the free ones.
  pub Chain-NotIn :
      (es : List (Slot T)) (o : Option FreeListIndex) (js : List FreeListIndex) (i : ℕ) (v : T)
      → get_elem? es i ≡ some (occupied v)
      → Chain es o js
      → NotIn i js
  Chain-NotIn es none [] i v h c = tt
  Chain-NotIn es none (j ∷ js) i v h c = absurd c
  Chain-NotIn es (some k) [] i v h c = absurd c
  Chain-NotIn es (some k) (j ∷ js) i v h (e, (next, found, c)) =
      ((λ p. cc), Chain-NotIn es next js i v h c)

  pub count-set_occupied :
      (es : List (Slot T)) (i : ℕ) (v : T) (next : Option FreeListIndex)
      → get_elem? es i ≡ some (empty next)
      → count_occupied (Base.set es i (occupied v)) ≡ suc (count_occupied es)
  unfolding count_occupied
  count-set_occupied [] i v next h = cc
  count-set_occupied (e ∷ es) zero v next h = ground arith
  count-set_occupied (occupied w ∷ es) (suc i) v next h = ap suc (count-set_occupied es i v next h)
  count-set_occupied (empty n ∷ es) (suc i) v next h = count-set_occupied es i v next h

  pub count-set-empty :
      (es : List (Slot T)) (i : ℕ) (v : T) (next : Option FreeListIndex)
      → get_elem? es i ≡ some (occupied v)
      → suc (count_occupied (Base.set es i (empty next))) ≡ count_occupied es
  unfolding count_occupied
  count-set-empty [] i v next h = cc
  count-set-empty (e ∷ es) zero v next h = ground arith
  count-set-empty (occupied w ∷ es) (suc i) v next h = ap suc (count-set-empty es i v next h)
  count-set-empty (empty n ∷ es) (suc i) v next h = count-set-empty es i v next h

  pub count-push :
      (es : List (Slot T)) (v : T)
      → count_occupied (es ++ (occupied v ∷ [])) ≡ suc (count_occupied es)
  unfolding count_occupied
  count-push [] v = refl
  count-push (occupied w ∷ es) v = ap suc (count-push es v)
  count-push (empty n ∷ es) v = count-push es v

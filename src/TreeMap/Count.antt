-- ===== src/TreeMap/Count.antt =====
-- The nodes in the list are counted by the size of the tree
-- (near-sdk/src/store/tree_map/mod.rs, len).
use near_runtime_rs.Base.{
  ℕ, zero, suc, ◌+◌, ◌≡◌, ◌≤◌, ◌<◌, ◌==◌, if◌then◌else◌, Option, none, some, List, [], ◌∷◌, arith,
  refl, sym, ◌∙◌, length, get_elem?_bound,
}
use near_runtime_rs.FreeList.Defs.{Slot, occupied, empty, FreeListIndex, get}
use near_runtime_rs.FreeList.Invariant.{IsFreeList, count_occupied}
use near_runtime_rs.TreeMap.Tree.{Node, Nodes}
use near_runtime_rs.TreeMap.Shape.{Shape, leaf, branch, size, occurs}
use near_runtime_rs.TreeMap.Slots.{get_occupied}
use near_runtime_rs.TreeMap.Represents.{vacant-occurs, node_of, Represents, Unique}

-- The sum of the first values.
unfoldable pub total : ℕ → (ℕ → ℕ) → ℕ
total zero f = 0
total (suc n) f = f 0 + total n (λ j. f (suc j))

total_add : (n : ℕ) (f g : ℕ → ℕ) → total n (λ j. f j + g j) ≡ total n f + total n g
unfolding total
total_add zero f g = refl
total_add (suc n) f g = omega (arith, total_add n (λ j. f (suc j)) (λ j. g (suc j)))

total_same : (n : ℕ) (f g : ℕ → ℕ) → ((j : ℕ) → f j ≡ g j) → total n f ≡ total n g
unfolding total
total_same zero f g e = refl
total_same (suc n) f g e =
    let e0 = e 0 in omega (arith, total_same n (λ j. f (suc j)) (λ j. g (suc j)) (λ j. e (suc j)))

total_zero : (n : ℕ) → total n (λ j. 0) ≡ 0
unfolding total
total_zero zero = refl
total_zero (suc n) = omega (arith, total_zero n)

total_one : (n i : ℕ) → i < n → ◌≡◌ {A = ℕ} (total n (λ j. if j == i then 1 else 0)) 1
unfolding total
total_one zero i b = absurd (omega (arith, b))
total_one (suc n) zero b = ground (
  arith,
  total_zero n,
  total_same n (λ j. if suc j == 0 then 1 else 0) (λ j. 0) (λ j. ground arith),
)
total_one (suc n) (suc i) b = ground (
  arith,
  total_one n i (omega (arith, b)),
  total_same n (λ j. if suc j == suc i then 1 else 0) (λ j. if j == i then 1 else 0)
      (λ j. ground arith),
)

total_le : (n : ℕ) (f g : ℕ → ℕ) → ((j : ℕ) → f j ≤ g j) → total n f ≤ total n g
unfolding total
total_le zero f g e = omega arith
total_le (suc n) f g e =
    let e0 = e 0 in omega (arith, total_le n (λ j. f (suc j)) (λ j. g (suc j)) (λ j. e (suc j)))

module _ {K : Type 0} where
  -- One for a node in the slot, and nothing for none.
  abbrev pub present : Option (Node K) → ℕ
  present none = 0
  present (some x) = 1

  pub present_le : (o : Option (Node K)) → present o ≤ 1
  present_le none = omega arith
  present_le (some x) = omega arith

  slot_at : List (Slot (Node K)) → ℕ → ℕ
  slot_at [] j = 0
  slot_at (occupied v ∷ es) zero = 1
  slot_at (empty n ∷ es) zero = 0
  slot_at (e ∷ es) (suc j) = slot_at es j

  total_slots : (es : List (Slot (Node K))) → total (length es) (slot_at es) ≡ count_occupied es
  unfolding total slot_at count_occupied
  total_slots [] = refl
  total_slots (occupied v ∷ es) = omega (arith, total_slots es)
  total_slots (empty n ∷ es) = omega (arith, total_slots es)

  present-get :
      (es : List (Slot (Node K))) (j n : ℕ) (o : Option FreeListIndex)
      → present (get j (record { first_free = o; occupied_count = n; elements = es }))
        ≡ slot_at es j
  unfolding get slot_at
  present-get [] j n o = refl
  present-get (occupied v ∷ es) zero n o = refl
  present-get (empty w ∷ es) zero n o = refl
  present-get (e ∷ es) (suc j) n o = present-get es j n o

  get_bound :
      (i : FreeListIndex) (h : Nodes K) (x : Node K) → get i h ≡ some x → i < length h.elements
  get_bound i h x e = get_elem?_bound h.elements i (get_occupied i x h e)

  -- The sizes are the sums of the occurrences.
  total_occurs :
      (h : Nodes K) (t : Shape K)
      → Represents h t
      → total (length h.elements) (λ j. occurs j t) ≡ size t
  total_occurs h leaf r = total_zero (length h.elements)
  total_occurs h (branch i k l r) e = omega (
    arith,
    total_add (length h.elements) (λ j. (if j == i then 1 else 0) + occurs j l) (λ j. occurs j r),
    total_add (length h.elements) (λ j. if j == i then 1 else 0) (λ j. occurs j l),
    total_one (length h.elements) i (get_bound i h (node_of k l r) e.0),
    total_occurs h l e.1,
    total_occurs h r e.2,
  )

  -- Every node in the list stands in the tree.
  abbrev pub Full : Nodes K → Shape K → Type 0
  Full h t = (j : FreeListIndex) → present (get j h) ≤ occurs j t

  present_same :
      (o : Option (Node K)) (n : ℕ) → present o ≤ n → n ≤ 1 → (o ≡ none → n ≡ 0) → present o ≡ n
  present_same none n a b z = sym (z refl)
  present_same (some x) n a b z = omega (arith, a, b)

  -- A free list that holds the nodes of a tree, each once, and no others counts them.
  pub Full-count :
      (h : Nodes K) (t : Shape K) (free : List FreeListIndex)
      → Represents h t
      → Unique t
      → Full h t
      → IsFreeList h free
      → h.occupied_count ≡ size t
  Full-count h t free r u f v =
      v.count
      ∙ sym (total_slots h.elements)
      ∙ total_same (length h.elements) (slot_at h.elements) (λ j. occurs j t)
          (λ j.
            sym (present-get h.elements j h.occupied_count h.first_free)
            ∙ present_same (get j h) (occurs j t) (f j) (u j) (λ e. vacant-occurs h j t e r))
      ∙ total_occurs h t r

-- ===== src/FreeList/Tests.antt =====
-- The free list at concrete inputs (near-sdk/src/store/free_list/mod.rs).
use near_runtime_rs.Base.{ℕ, ◌≡◌, ◌≢◌, ◌⊎◌, none, some, List, [], ◌∷◌, done, refl, arith, length}
use near_runtime_rs.FreeList.Defs.{FreeList, FreeListIndex, occupied, empty, get, insert, remove}
use near_runtime_rs.FreeList.Invariant.{IsFreeList, count_occupied}
use near_runtime_rs.FreeList.Insert.{Inserted}
use near_runtime_rs.FreeList.Remove.{Removed, remove_lem, insert_lem, insert-remove}

-- Slot 0 was removed first, and slot 2 after it.
abbrev list : FreeList ℕ
list = record {
  first_free = some 2;
  occupied_count = 1;
  elements = empty none ∷ occupied 5 ∷ empty (some 0) ∷ [];
}

abbrev free : List FreeListIndex
free = 2 ∷ 0 ∷ []

list-IsFreeList : IsFreeList list free
unfolding count_occupied
list-IsFreeList = record {
  chain = (refl, (some 0, refl, (refl, (none, refl, tt))));
  nodup = ((omega arith, tt), (tt, tt));
  count = refl;
  total = refl;
  bound = omega arith;
}

insert_lem_example :
    (i : FreeListIndex) × (l' : FreeList ℕ) × (free' : List FreeListIndex) × (insert 9 list
      ≡ done (i, l'))
    × IsFreeList l' free'
    × Inserted 9 i list l'
insert_lem_example = insert_lem 9 list free list-IsFreeList (λ full. cc)

remove_lem_example :
    (l' : FreeList ℕ) × (free' : List FreeListIndex) × (remove 1 list ≡ done (get 1 list, l'))
    × IsFreeList l' free'
    × (((get 1 list ≡ none) × (l' ≡ list)) ⊎ (Removed 1 list l' × (l'.first_free ≡ some 1)))
remove_lem_example = remove_lem 1 list free list-IsFreeList

insert-remove_example :
    (l1 l2 : FreeList ℕ) × (remove 1 list ≡ done (some 5, l1))
    × (insert 9 l1 ≡ done (1, l2))
    × (get 1 l2 ≡ some 9)
    × ((j : FreeListIndex) → j ≢ 1 → get j l2 ≡ get j list)
    × (length l2.elements ≡ 3)
    × (l2.first_free ≡ some 2)
unfolding get
insert-remove_example = insert-remove 1 5 9 list free list-IsFreeList refl

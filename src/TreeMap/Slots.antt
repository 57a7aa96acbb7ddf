-- ===== src/TreeMap/Slots.antt =====
-- A write to a node that is there (near-sdk/src/store/free_list/mod.rs, get_mut).
use near_runtime_rs.Base.{
  ℕ, zero, suc, ◌≡◌, ◌≢◌, Option, none, some, List, [], ◌∷◌, arith, refl, sym, ap, ◌∙◌, subst,
  length, get_elem?, get_elem?-set_ne, get_elem?-set_self, get_elem?_bound, length-set,
}
use near_runtime_rs.Base
use near_runtime_rs.FreeList.Defs.{Slot, occupied, empty, FreeList, FreeListIndex, get, get_mut}
use near_runtime_rs.FreeList.Invariant.{IsFreeList, count_occupied, Chain-set, Chain-NotIn}

module _ {T : Type 0} where
  -- The list with another element in an occupied slot.
  abbrev pub put : FreeListIndex → T → FreeList T → FreeList T
  put i x l = get_mut (λ _. x) i l

  pub get_occupied :
      (i : FreeListIndex) (v : T) (l : FreeList T)
      → get i l ≡ some v
      → get_elem? l.elements i ≡ some (occupied v)
  unfolding get
  get_occupied i v l h = ground arith

  put_elements :
      (i : FreeListIndex) (v x : T) (l : FreeList T)
      → get i l ≡ some v
      → put i x l ≡ record l { elements = Base.set l.elements i (occupied x) }
  unfolding get_mut
  put_elements i v x l h = ground (arith, get_occupied i v l h)

  pub get-put_self :
      (i : FreeListIndex) (v x : T) (l : FreeList T) → get i l ≡ some v → get i (put i x l) ≡ some x
  unfolding get
  get-put_self i v x l h = ground (
    arith,
    put_elements i v x l h,
    get_elem?-set_self l.elements i (occupied x),
    get_elem?_bound l.elements i (get_occupied i v l h),
  )

  pub get-put_ne :
      (i j : FreeListIndex) (v x : T) (l : FreeList T)
      → get i l ≡ some v
      → j ≢ i
      → get j (put i x l) ≡ get j l
  unfolding get
  get-put_ne i j v x l h ne = ground (
    arith,
    put_elements i v x l h,
    get_elem?-set_ne l.elements i j (occupied x) (λ e. ne (sym e)),
  )

  count-set_same :
      (es : List (Slot T)) (i : ℕ) (v x : T)
      → get_elem? es i ≡ some (occupied v)
      → count_occupied (Base.set es i (occupied x)) ≡ count_occupied es
  unfolding count_occupied
  count-set_same [] i v x h = cc
  count-set_same (occupied w ∷ es) zero v x h = refl
  count-set_same (empty w ∷ es) zero v x h = cc
  count-set_same (occupied w ∷ es) (suc i) v x h = ap suc (count-set_same es i v x h)
  count-set_same (empty n ∷ es) (suc i) v x h = count-set_same es i v x h

  pub put-IsFreeList :
      (i : FreeListIndex) (v x : T) (l : FreeList T) (free : List FreeListIndex)
      → get i l ≡ some v
      → IsFreeList l free
      → IsFreeList (put i x l) free
  put-IsFreeList i v x l free h r =
      let found = get_occupied i v l h in
      subst (λ m. IsFreeList m free) (sym (put_elements i v x l h))
        (record {
          chain =
              Chain-set l.elements l.first_free free i (occupied x)
                (Chain-NotIn l.elements l.first_free free i v found r.chain) r.chain;
          nodup = r.nodup;
          count = r.count ∙ sym (count-set_same l.elements i v x found);
          total = omega (
            arith,
            r.total,
            count-set_same l.elements i v x found,
            length-set l.elements i (occupied x),
          );
          bound = omega (arith, r.bound, length-set l.elements i (occupied x));
        })

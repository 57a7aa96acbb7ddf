-- ===== src/FreeList/Insert.antt =====
-- Insertion into the free list (near-sdk/src/store/free_list/mod.rs, insert).
use near_runtime_rs.Base.{
  ℕ, zero, suc, ◌+◌, ◌-◌, ◌<◌, ◌≤◌, ◌≡◌, ◌≢◌, Option, none, some, List, [], ◌∷◌, ◌++◌, Outcome,
  done, arith, refl, sym, ◌∙◌, subst, length, get_elem?, get_elem?-set_ne, get_elem?-set_self,
  get_elem?_bound, length-set, length-append, get_elem?-append_last, get_elem?-append_left,
  get_elem?-none, u32_size, ap, Option-cases, dec_lt,
}
use near_runtime_rs.Base
use near_runtime_rs.FreeList.Defs.{
  occupied, empty, FreeList, FreeListIndex, get, insert, fill_vacant, push_new, list_len,
}
use near_runtime_rs.FreeList.Invariant.{
  Chain, IsFreeList, Chain-set, count-set_occupied, count-push,
}

module _ {T : Type 0} where
  count-le-length :
      (l : FreeList T) (free : List FreeListIndex)
      → IsFreeList l free
      → l.occupied_count ≤ length l.elements
  count-le-length l free r = omega (arith, r.count, r.total)

  -- What an insertion has done: the element is at its index, where nothing was; nothing else has
  -- moved; and the count is right.
  pub record Inserted (value : T) (index : FreeListIndex) (l l' : FreeList T) : Type 0 where
    pub vacant : get index l ≡ none
    pub present : get index l' ≡ some value
    pub others : (j : FreeListIndex) → j ≢ index → get j l' ≡ get j l
    pub count : list_len l' ≡ list_len l + 1

  -- The state after a vacant slot has been filled.
  abbrev pub filled : T → FreeListIndex → Option FreeListIndex → FreeList T → FreeList T
  filled value i next l = record {
    first_free = next;
    occupied_count = l.occupied_count + 1;
    elements = Base.set l.elements i (occupied value);
  }

  module _ (value : T) (i : FreeListIndex) (js : List FreeListIndex) (next : Option FreeListIndex)
      (l : FreeList T) (r : IsFreeList l (i ∷ js)) (first : l.first_free ≡ some i)
      (found : get_elem? l.elements i ≡ some (empty next)) (c : Chain l.elements next js) where
    fill_vacant_lem :
        fill_vacant value i l
        ≡ done
            (i, record l { first_free = next; elements = Base.set l.elements i (occupied value) })
    unfolding fill_vacant
    fill_vacant_lem = ground arith

    vacant_room : l.occupied_count + 1 < u32_size
    vacant_room = omega (arith, r.count, r.total, r.bound)

    pub insert_vacant : insert value l ≡ done (i, filled value i next l)
    unfolding insert
    insert_vacant = ground (arith, fill_vacant_lem, vacant_room)

    pub filled-IsFreeList : IsFreeList (filled value i next l) js
    filled-IsFreeList = record {
      chain = Chain-set l.elements next js i (occupied value) r.nodup.0 c;
      nodup = r.nodup.1;
      count = omega (arith, r.count, count-set_occupied l.elements i value next found);
      total = omega (
        arith,
        r.total,
        count-set_occupied l.elements i value next found,
        length-set l.elements i (occupied value),
      );
      bound = omega (arith, r.bound, length-set l.elements i (occupied value));
    }

    pub filled-Inserted : Inserted value i l (filled value i next l)
    unfolding get list_len
    filled-Inserted = record {
      vacant = ground arith;
      present = ground (
        arith,
        get_elem?-set_self l.elements i (occupied value),
        get_elem?_bound l.elements i found,
      );
      others = λ j ne.
          ground (arith, get_elem?-set_ne l.elements i j (occupied value) (λ e. ne (sym e)));
      count = refl;
    }

  -- The state after a new slot has been pushed.
  abbrev pub pushed : T → FreeList T → FreeList T
  pushed value l = record l {
    occupied_count = l.occupied_count + 1;
    elements = l.elements ++ (occupied value ∷ []);
  }

  module _ (value : T) (l : FreeList T) (r : IsFreeList l []) (first : l.first_free ≡ none)
      (fits : length l.elements + 1 < u32_size) where
    push_new_lem :
        push_new value l
        ≡ done (length l.elements, record l { elements = l.elements ++ (occupied value ∷ []) })
    unfolding push_new
    push_new_lem =
        let size = length-append l.elements (occupied value ∷ []) in
        let last : length (l.elements ++ (occupied value ∷ [])) - 1 ≡ length l.elements =
          omega arith in
        ground arith

    pushed_room : l.occupied_count + 1 < u32_size
    pushed_room = omega (arith, r.count, r.total)

    pub insert-pushed : insert value l ≡ done (length l.elements, pushed value l)
    unfolding insert
    insert-pushed = ground (arith, push_new_lem, pushed_room)

    pub pushed-IsFreeList : IsFreeList (pushed value l) []
    pushed-IsFreeList = record {
      chain = subst (λ o. Chain (l.elements ++ (occupied value ∷ [])) o []) (sym first) tt;
      nodup = tt;
      count = omega (arith, r.count, count-push l.elements value);
      total = omega (
        arith,
        r.total,
        count-push l.elements value,
        length-append l.elements (occupied value ∷ []),
      );
      bound = omega (arith, length-append l.elements (occupied value ∷ []));
    }

    append_slot :
        (j : ℕ)
        → j ≢ length l.elements
        → get_elem? (l.elements ++ (occupied value ∷ [])) j ≡ get_elem? l.elements j
    append_slot j ne = elim (dec_lt j (length l.elements)) [
      | yes p ↦ get_elem?-append_left l.elements (occupied value ∷ []) j p
      | no p ↦
          get_elem?-none (l.elements ++ (occupied value ∷ [])) j
            (omega (arith, length-append l.elements (occupied value ∷ [])))
          ∙ sym (get_elem?-none l.elements j (omega arith))
    ]

    pub pushed-Inserted : Inserted value (length l.elements) l (pushed value l)
    unfolding get list_len
    pushed-Inserted = record {
      vacant = ground (arith, get_elem?-none l.elements (length l.elements));
      present = ground (arith, get_elem?-append_last l.elements (occupied value));
      others = λ j ne. let same = append_slot j ne in ground arith;
      count = refl;
    }

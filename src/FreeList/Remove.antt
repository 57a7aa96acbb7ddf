-- ===== src/FreeList/Remove.antt =====
-- Removal from the free list, and runs of operations (near-sdk/src/store/free_list/mod.rs, remove).
use near_runtime_rs.Base.{
  ℕ, zero, suc, ◌+◌, ◌-◌, ◌<◌, ◌≤◌, ◌≡◌, ◌≢◌, ◌⊎◌, Option, none, some, List, [], ◌∷◌, ◌++◌, Outcome,
  done, arith, refl, sym, ◌∙◌, subst, length, get_elem?, get_elem?-set_ne, get_elem?-set_self,
  get_elem?_bound, length-set, u32_size, ap, Option-cases, inl, inr,
}
use near_runtime_rs.Base
use near_runtime_rs.FreeList.Defs.{
  Slot, occupied, empty, FreeList, FreeListIndex, get, insert, remove, take_slot, list_len,
}
use near_runtime_rs.FreeList.Invariant.{Chain, IsFreeList, Chain-set, Chain-NotIn, count-set-empty}
use near_runtime_rs.FreeList.Insert.{
  Inserted, insert_vacant, insert-pushed, filled, filled-IsFreeList, filled-Inserted, pushed,
  pushed-IsFreeList, pushed-Inserted,
}

module _ {T : Type 0} where
  -- What a removal has done.
  pub record Removed (index : FreeListIndex) (l l' : FreeList T) : Type 0 where
    pub gone : get index l' ≡ none
    pub others : (j : FreeListIndex) → j ≢ index → get j l' ≡ get j l
    pub count : list_len l' + 1 ≡ list_len l

  abbrev emptied : FreeListIndex → FreeList T → FreeList T
  emptied i l = record {
    first_free = some i;
    occupied_count = l.occupied_count - 1;
    elements = Base.set l.elements i (empty l.first_free);
  }

  module _ (i : FreeListIndex) (v : T) (l : FreeList T) (free : List FreeListIndex)
      (r : IsFreeList l free) (found : get_elem? l.elements i ≡ some (occupied v)) where
    positive : 0 < l.occupied_count
    positive = omega (arith, r.count, count-set-empty l.elements i v l.first_free found)

    remove_occupied : remove i l ≡ done (some v, emptied i l)
    unfolding remove take_slot
    remove_occupied = ground (arith, positive)

    emptied-IsFreeList : IsFreeList (emptied i l) (i ∷ free)
    emptied-IsFreeList =
        let new = Chain-NotIn l.elements l.first_free free i v found r.chain in
        let size = length-set l.elements i (empty l.first_free) in
        let fewer = count-set-empty l.elements i v l.first_free found in
        record {
          chain = (
            refl,
            (
              l.first_free,
              get_elem?-set_self l.elements i (empty l.first_free)
                  (get_elem?_bound l.elements i found),
              Chain-set l.elements l.first_free free i (empty l.first_free) new r.chain,
            ),
          );
          nodup = (new, r.nodup);
          count = omega (arith, r.count);
          total = omega (arith, r.total);
          bound = omega (arith, r.bound);
        }

    emptied-Removed : Removed i l (emptied i l)
    unfolding get list_len
    emptied-Removed = record {
      gone = ground (
        arith,
        get_elem?-set_self l.elements i (empty l.first_free),
        get_elem?_bound l.elements i found,
      );
      others = λ j ne.
          ground (arith, get_elem?-set_ne l.elements i j (empty l.first_free) (λ e. ne (sym e)));
      count = omega (arith, positive);
    }

  remove-none : (i : FreeListIndex) (l : FreeList T) → get i l ≡ none → remove i l ≡ done (none, l)
  unfolding remove get take_slot
  remove-none i l h = ground arith

  get_inv :
      (i : FreeListIndex) (v : T) (l : FreeList T)
      → get i l ≡ some v
      → get_elem? l.elements i ≡ some (occupied v)
  unfolding get
  get_inv i v l h = ground arith

  -- A removal returns what is at the index. If that is an element, it is gone, nothing else has
  -- moved, and the slot is the next to be filled; if not, nothing changes.
  pub remove_lem :
      (i : FreeListIndex) (l : FreeList T) (free : List FreeListIndex)
      → IsFreeList l free
      → (l' : FreeList T) × (free' : List FreeListIndex) × (remove i l ≡ done (get i l, l'))
        × IsFreeList l' free'
        × (((get i l ≡ none) × (l' ≡ l)) ⊎ (Removed i l l' × (l'.first_free ≡ some i)))
  remove_lem i l free r = elim (Option-cases (get i l)) [
    | inl absent ↦ (
      l,
      free,
      remove-none i l absent ∙ ap (λ o. done (o, l)) (sym absent),
      r,
      inl (absent, refl),
    )
    | inr (v, present) ↦
        let found = get_inv i v l present in
        (
          emptied i l,
          i ∷ free,
          remove_occupied i v l free r found ∙ ap (λ o. done (o, emptied i l)) (sym present),
          emptied-IsFreeList i v l free r found,
          inr (emptied-Removed i v l free r found, refl),
        )
  ]

  Chain-cases :
      (es : List (Slot T)) (o : Option FreeListIndex) (js : List FreeListIndex)
      → Chain es o js
      → ((o ≡ none) × (js ≡ []))
        ⊎ ((i : FreeListIndex) × (rest : List FreeListIndex) × (next : Option FreeListIndex) × (o
              ≡ some i)
            × (js ≡ i ∷ rest)
            × (get_elem? es i ≡ some (empty next))
            × Chain es next rest)
  Chain-cases es none [] c = inl (refl, refl)
  Chain-cases es none (j ∷ js) c = absurd c
  Chain-cases es (some i) [] c = absurd c
  Chain-cases es (some i) (j ∷ js) (e, (next, found, c)) =
      inr (j, js, next, ap some e, refl, found, c)

  -- An insertion never panics while a slot is free or the new length fits a `u32`. It returns an
  -- index where nothing was, and puts the element there.
  pub insert_lem :
      (value : T) (l : FreeList T) (free : List FreeListIndex)
      → IsFreeList l free
      → (free ≡ [] → length l.elements + 1 < u32_size)
      → (i : FreeListIndex) × (l' : FreeList T) × (free' : List FreeListIndex) × (insert value l
          ≡ done (i, l'))
        × IsFreeList l' free'
        × Inserted value i l l'
  insert_lem value l free r fits = elim (Chain-cases l.elements l.first_free free r.chain) [
    | inl (first, full) ↦
        let s = subst (IsFreeList l) full r in
        (
          length l.elements,
          pushed value l,
          [],
          insert-pushed value l s first (fits full),
          pushed-IsFreeList value l s first (fits full),
          pushed-Inserted value l s first (fits full),
        )
    | inr (i, rest, next, first, links, found, c) ↦
        let s = subst (IsFreeList l) links r in
        (
          i,
          filled value i next l,
          rest,
          insert_vacant value i rest next l s first found c,
          filled-IsFreeList value i rest next l s first found c,
          filled-Inserted value i rest next l s first found c,
        )
  ]

  -- What was just removed is where the next insertion goes: the slot is used again, and the list
  -- grows by none.
  pub insert-remove :
      (i : FreeListIndex) (v w : T) (l : FreeList T) (free : List FreeListIndex)
      → IsFreeList l free
      → get i l ≡ some v
      → (l1 l2 : FreeList T) × (remove i l ≡ done (some v, l1))
        × (insert w l1 ≡ done (i, l2))
        × (get i l2 ≡ some w)
        × ((j : FreeListIndex) → j ≢ i → get j l2 ≡ get j l)
        × (length l2.elements ≡ length l.elements)
        × (l2.first_free ≡ l.first_free)
  insert-remove i v w l free r present =
      let found = get_inv i v l present in
      let l1 = emptied i l in
      let r1 = emptied-IsFreeList i v l free r found in
      let new = Chain-NotIn l.elements l.first_free free i v found r.chain in
      let link =
        get_elem?-set_self l.elements i (empty l.first_free) (get_elem?_bound l.elements i found) in
      let c = Chain-set l.elements l.first_free free i (empty l.first_free) new r.chain in
      let ins = filled-Inserted w i free l.first_free l1 r1 refl link c in
      (
        l1,
        filled w i l.first_free l1,
        remove_occupied i v l free r found,
        insert_vacant w i free l.first_free l1 r1 refl link c,
        ins.present,
        (λ j ne. ins.others j ne ∙ (emptied-Removed i v l free r found).others j ne),
        length-set l1.elements i (occupied w) ∙ length-set l.elements i (empty l.first_free),
        refl,
      )

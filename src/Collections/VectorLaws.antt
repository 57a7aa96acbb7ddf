-- ===== src/Collections/VectorLaws.antt =====
-- The uncached vector is a list in the trie (near-sdk/src/collections/vector.rs).
use near_runtime_rs.Base.{
  ℕ, suc, ◌+◌, ◌≡◌, ◌≢◌, ◌<◌, some, List, [], ◌∷◌, ◌++◌, u64_size, done, arith, refl, ap, sym, ◌∙◌,
  subst, dec_lt, length, get_elem?, set, take, length-append, length-set, get_elem?-append_left,
  get_elem?-append_last, get_elem?_bound, get_elem?-set_self, get_elem?-set_ne, get_elem?-take,
  get_elem?-some, get_elem?-none, length-take,
}
use near_runtime_rs.Store.Trie.{
  Bytes, storage_write, storage_remove, write_ne, remove_ne, remove_self,
}
use near_runtime_rs.Collections.Holds.{
  Holds, Frees, key_injective, write_stored, storage, set-length,
}
use near_runtime_rs.Collections.Vector.{
  Storage, index_to_lookup_key, write, evict, get_raw, push_raw, pop_raw, move_last, remove_last,
  swap_remove_raw, replace_raw, is_empty,
}

module _ (s : Storage) (xs : List Bytes) (h : Holds s xs) where
  -- A read returns the list's element, or nothing out of bounds, and changes nothing.
  pub get_raw_lem : (i : ℕ) → get_raw i s ≡ done (get_elem? xs i, s)
  unfolding get_raw
  get_raw_lem i = elim (dec_lt i (length xs)) [
    | yes p ↦
        let e = get_elem?-some xs i p in ground (arith, h.measured, p, e.1, h.stored i (e.0) (e.1))
    | no p ↦ ground (arith, h.measured, p, get_elem?-none xs i (omega arith))
  ]

  -- If the new length fits a `u64`, the element is put at the end of the list.
  pub push_raw_lem :
      (x : Bytes)
      → length xs + 1 < u64_size
      → (u : Storage) × (push_raw x s ≡ done (tt, u)) × Holds u (xs ++ (x ∷ []))
  unfolding push_raw write
  push_raw_lem x b = (
    storage (s.vec.len + 1) (s.vec.prefix)
        (storage_write (index_to_lookup_key (s.vec.prefix) (s.vec.len)) x (s.trie)),
    ground (arith, h.measured, b),
    record {
      measured = omega (arith, h.measured, length-append xs (x ∷ []));
      bounded = omega (arith, length-append xs (x ∷ []));
      stored =
          write_stored (s.vec.prefix) (s.trie) (xs ++ (x ∷ [])) (s.vec.len) x
            (omega (arith, length-append xs (x ∷ [])))
            (omega (arith, h.measured, length-append xs (x ∷ [])))
            (λ j y q ne. h.stored j y (
              ground (
                arith,
                q,
                ne,
                h.measured,
                length-append xs (x ∷ []),
                get_elem?_bound (xs ++ (x ∷ [])) j q,
                get_elem?-append_left xs (x ∷ []) j,
              )))
            (ap (get_elem? (xs ++ (x ∷ []))) h.measured ∙ get_elem?-append_last xs x);
    },
  )

  -- In bounds, the old element is returned and the new one written in its place.
  pub replace_raw_lem :
      (i : ℕ) (x old : Bytes)
      → get_elem? xs i ≡ some old
      → (u : Storage) × (replace_raw i x s ≡ done (old, u)) × Holds u (set xs i x)
  unfolding replace_raw write
  replace_raw_lem i x old e =
      let l = get_elem?_bound xs i e in
      (
        storage (s.vec.len) (s.vec.prefix)
            (storage_write (index_to_lookup_key (s.vec.prefix) i) x (s.trie)),
        ground (arith, h.measured, l, h.stored i old e),
        record {
          measured = h.measured ∙ sym (length-set xs i x);
          bounded = omega (arith, h.bounded, length-set xs i x);
          stored =
              write_stored (s.vec.prefix) (s.trie) (set xs i x) i x
                (omega (arith, h.bounded, length-set xs i x)) (omega (arith, l, length-set xs i x))
                (λ j y q ne. h.stored j y (sym (get_elem?-set_ne xs i j x (λ k. ne (sym k))) ∙ q))
                (get_elem?-set_self xs i x l);
        },
      )

  -- The last element is returned and removed.
  pub pop_raw_lem :
      (n : ℕ) (x : Bytes)
      → length xs ≡ suc n
      → get_elem? xs n ≡ some x
      → (u : Storage) × (pop_raw s ≡ done (some x, u)) × Holds u (take n xs) × Frees n s u
  unfolding pop_raw evict is_empty
  pop_raw_lem n x e g = (
    storage n (s.vec.prefix) (storage_remove (index_to_lookup_key (s.vec.prefix) n) (s.trie)),
    ground (arith, e, h.measured, h.stored n x g),
    record {
      measured = sym (length-take n xs (omega (arith, e)));
      bounded = omega (arith, h.bounded, length-take n xs (omega (arith, e)));
      stored = λ j y q.
          let l : j < n = omega (arith, e, get_elem?_bound (take n xs) j q, length-take n xs) in
          remove_ne (index_to_lookup_key (s.vec.prefix) n) (index_to_lookup_key (s.vec.prefix) j)
            (s.trie)
            (key_injective (s.vec.prefix) j n (omega (arith, h.bounded)) (omega (arith, h.bounded))
              (omega arith))
          ∙ h.stored j y (sym (get_elem?-take n xs j l) ∙ q);
    },
    record {
      same_prefix = refl;
      removed = remove_self (index_to_lookup_key (s.vec.prefix) n) (s.trie);
      framed = λ k other.
          remove_ne (index_to_lookup_key (s.vec.prefix) n) k (s.trie) (other n (omega arith));
    },
  )

module _ (s : Storage) (xs : List Bytes) (h : Holds s xs) (n : ℕ) (e : length xs ≡ suc n)
    {last : Bytes} (g : get_elem? xs n ≡ some last) where
  remove_last_lem :
      (u : Storage) × (remove_last s ≡ done (last, u)) × Holds u (take n xs) × Frees n s u
  unfolding remove_last
  remove_last_lem =
      let (u, call, holds, frees) = pop_raw_lem s xs h n last e g in
      (u, ground (arith, call), holds, frees)

  -- A write below the end keeps the entry of the last element removed.
  write-Frees :
      (u : Storage) (i : ℕ) (x : Bytes)
      → Frees n s u
      → i < n
      → Frees n s
          (record u { trie = storage_write (index_to_lookup_key (u.vec.prefix) i) x (u.trie) })
  write-Frees u i x f l = record {
    same_prefix = f.same_prefix;
    removed =
        write_ne (index_to_lookup_key (u.vec.prefix) i) (index_to_lookup_key (s.vec.prefix) n) x
          (u.trie)
          (subst (λ p. index_to_lookup_key (s.vec.prefix) n ≢ index_to_lookup_key p i)
            (sym f.same_prefix)
            (key_injective (s.vec.prefix) n i (omega (arith, h.bounded, e))
              (omega (arith, h.bounded, e)) (omega arith)))
        ∙ f.removed;
    framed = λ k other.
        write_ne (index_to_lookup_key (u.vec.prefix) i) k x (u.trie)
          (subst (λ p. k ≢ index_to_lookup_key p i) (sym f.same_prefix) (other i (omega arith)))
        ∙ f.framed k other;
  }

  move_last_lem :
      (i : ℕ) {x : Bytes}
      → i < n
      → get_elem? xs i ≡ some x
      → (u : Storage) × (move_last i s ≡ done (x, u))
        × Holds u (set (take n xs) i last)
        × Frees n s u
  unfolding move_last write
  move_last_lem i {x} l q =
      let r = pop_raw_lem s xs h n last e g in
      let ys = take n xs in
      let b : i < length ys = omega (arith, l, length-take n xs (omega (arith, e))) in
      let st : r.0.trie (index_to_lookup_key (r.0.vec.prefix) i) ≡ some x =
        r.2.stored i x (get_elem?-take n xs i l ∙ q) in
      (
        record (r.0) {
          trie = storage_write (index_to_lookup_key (r.0.vec.prefix) i) last (r.0.trie);
        },
        ground (arith, r.1, r.3.same_prefix, st),
        record {
          measured = r.2.measured ∙ sym (length-set ys i last);
          bounded = omega (arith, r.2.bounded, length-set ys i last);
          stored =
              write_stored (r.0.vec.prefix) (r.0.trie) (set ys i last) i last
                (omega (arith, r.2.bounded, length-set ys i last))
                (omega (arith, b, length-set ys i last))
                (λ j y q ne.
                  r.2.stored j y (sym (get_elem?-set_ne ys i j last (λ k. ne (sym k))) ∙ q))
                (get_elem?-set_self ys i last b);
        },
        write-Frees (r.0) i last (r.3) l,
      )

  -- In bounds, the element at the index is returned, and the last element takes its place. The
  -- entry of the last index is removed from the trie, and no key changes but those of the elements.
  pub swap_remove_raw_lem :
      (i : ℕ) {x : Bytes}
      → get_elem? xs i ≡ some x
      → (u : Storage) × (swap_remove_raw i s ≡ done (x, u))
        × Holds u (set (take n xs) i last)
        × Frees n s u
  unfolding swap_remove_raw
  swap_remove_raw_lem i {x} q = elim (dec_lt i n) [
    | yes l ↦
        let (u, call, holds, frees) = move_last_lem i l q in
        (u, ground (arith, h.measured, e, l, call), holds, frees)
    | no p ↦
        let b = get_elem?_bound xs i q in
        let same : i ≡ n = omega arith in
        let eq : last ≡ x = ground (arith, same, g, q) in
        let (u, call, holds, frees) = remove_last_lem in
        (
          u,
          ground (arith, h.measured, e, same, call, eq),
          subst (Holds u)
              (sym (
                set-length (take n xs) i last (omega (arith, length-take n xs (omega (arith, e))))))
              holds,
          frees,
        )
  ]

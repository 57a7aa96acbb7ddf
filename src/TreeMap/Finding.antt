-- ===== src/TreeMap/Finding.antt =====
-- The search for the node of a key and for its parent (near-sdk/src/store/tree_map/mod.rs, lookup_at).
use near_runtime_rs.Base.{
  ℕ, zero, suc, List, ◌≡◌, ◌≤◌, true, false, Option, none, some, ◌∷◌, ◌++◌, Outcome, done, arith,
  refl, ap, ◌∙◌, Bool-cases, inl, inr, ◌⊎◌,
}
use near_runtime_rs.FreeList.Defs.{FreeListIndex}
use near_runtime_rs.TreeMap.Ord.{Ord}
use near_runtime_rs.TreeMap.Tree.{Node, Nodes, Panic, node}
use near_runtime_rs.TreeMap.Shape.{Shape, leaf, branch, height, link, keys}
use near_runtime_rs.TreeMap.SortedKeys.{Sorted, Sorted-halves, has_key, has_key-append}
use near_runtime_rs.TreeMap.Represents.{node_of, Represents}
use near_runtime_rs.TreeMap.Remove.{Edge, left, right, Position, lookup_from}
use near_runtime_rs.TreeMap.Lookup.{from_link, eq_swap, has_key_above, has_key_below}
use near_runtime_rs.TreeMap.Place.{above_tests, below_tests, At, has_key-At}
use near_runtime_rs.TreeMap.Extreme.{has_key_root}

module _ {K : Type 0} ⦃o : Ord K⦄ where
  abbrev pub side : Edge → Shape K → Shape K → Shape K
  side left l r = l
  side right l r = r

  -- The parent of a subtree.
  pub record Parent (t sub : Shape K) (par : Option (FreeListIndex × Node K × Edge)) : Type 0 where
    pub pid : FreeListIndex
    pub pk : K
    pub pl : Shape K
    pub pr : Shape K
    pub edge : Edge
    pub is : par ≡ some (pid, node_of pk pl pr, edge)
    pub place : At pk (branch pid pk pl pr) t
    pub below : side edge pl pr ≡ sub

  -- The node of the key was found, with its parent or with the one that was given.
  pub record Found (t : Shape K) (p : Option (FreeListIndex × Node K × Edge)) (key : K)
      (run : Outcome Panic (Option (Position K))) : Type 0 where
    pub i : FreeListIndex
    pub l : Shape K
    pub r : Shape K
    pub par : Option (FreeListIndex × Node K × Edge)
    pub place : At key (branch i key l r) t
    pub found : run ≡ done (some ((i, node_of key l r), par))
    pub up : ((par ≡ p) × (t ≡ branch i key l r)) ⊎ Parent t (branch i key l r) par

  module _ (fuel : ℕ) (i : FreeListIndex) (p : Option (FreeListIndex × Node K × Edge)) (key : K)
      (h : Nodes K) (n : Node K) (e : node h i ≡ some n) where
    step_here :
        o.eq_key n.key key ≡ true → lookup_from (suc fuel) i p key h ≡ done (some ((i, n), p))
    unfolding lookup_from
    step_here eq = ground (arith, e, eq)

    step_right :
        o.eq_key n.key key ≡ false
        → o.lt_key n.key key ≡ true
        → lookup_from (suc fuel) i p key h
          ≡ from_link (λ c. lookup_from fuel c (some (i, n, right)) key h) none n.rgt
    unfolding lookup_from
    step_right eq lt = ground (arith, e, eq, lt)

    step_left :
        o.eq_key n.key key ≡ false
        → o.lt_key n.key key ≡ false
        → lookup_from (suc fuel) i p key h
          ≡ from_link (λ c. lookup_from fuel c (some (i, n, left)) key h) none n.lft
    unfolding lookup_from
    step_left eq lt = ground (arith, e, eq, lt)

  from_right :
      (i : FreeListIndex) (k : K) (l r : Shape K) (p : Option (FreeListIndex × Node K × Edge))
      (key : K) {run run' : Outcome Panic (Option (Position K))}
      → Sorted (keys (branch i k l r))
      → o.eq_key k key ≡ false
      → o.lt_key k key ≡ true
      → run' ≡ run
      → Found r (some (i, node_of k l r, right)) key run
      → Found (branch i k l r) p key run'
  from_right i k l r p key s eq lt same w = record {
    i = w.i;
    l = w.l;
    r = w.r;
    par = w.par;
    place = inr (inr (eq, lt, w.place));
    found = same ∙ w.found;
    up = elim w.up [
      | inl (pe, te) ↦ inr (record {
        pid = i;
        pk = k;
        pl = l;
        pr = r;
        edge = right;
        is = pe;
        place = inl (o.eq_refl k, refl);
        below = te;
      })
      | inr d ↦
          let halves = Sorted-halves (keys l) k (keys r) s in
          let tests = above_tests k d.pk (keys r) halves.2 (
            has_key-At d.pk d.pk (branch d.pid d.pk d.pl d.pr) r d.place
              (has_key_root d.pid d.pk d.pl d.pr)) in
          inr (record {
            pid = d.pid;
            pk = d.pk;
            pl = d.pl;
            pr = d.pr;
            edge = d.edge;
            is = d.is;
            place = inr (inr (tests.0, tests.1, d.place));
            below = d.below;
          })
    ];
  }

  from_left :
      (i : FreeListIndex) (k : K) (l r : Shape K) (p : Option (FreeListIndex × Node K × Edge))
      (key : K) {run run' : Outcome Panic (Option (Position K))}
      → Sorted (keys (branch i k l r))
      → o.eq_key k key ≡ false
      → o.lt_key k key ≡ false
      → run' ≡ run
      → Found l (some (i, node_of k l r, left)) key run
      → Found (branch i k l r) p key run'
  from_left i k l r p key s eq lt same w = record {
    i = w.i;
    l = w.l;
    r = w.r;
    par = w.par;
    place = inr (inl (eq, lt, w.place));
    found = same ∙ w.found;
    up = elim w.up [
      | inl (pe, te) ↦ inr (record {
        pid = i;
        pk = k;
        pl = l;
        pr = r;
        edge = left;
        is = pe;
        place = inl (o.eq_refl k, refl);
        below = te;
      })
      | inr d ↦
          let halves = Sorted-halves (keys l) k (keys r) s in
          let tests = below_tests k d.pk (keys l) halves.1 (
            has_key-At d.pk d.pk (branch d.pid d.pk d.pl d.pr) l d.place
              (has_key_root d.pid d.pk d.pl d.pr)) in
          inr (record {
            pid = d.pid;
            pk = d.pk;
            pl = d.pl;
            pr = d.pr;
            edge = d.edge;
            is = d.is;
            place = inr (inl (tests.0, tests.1, d.place));
            below = d.below;
          })
    ];
  }

  absent_right :
      (k key : K) (xs ys : List K)
      → Sorted (xs ++ (k ∷ ys))
      → o.eq_key k key ≡ false
      → o.lt_key k key ≡ true
      → has_key key ys ≡ false
      → has_key key (xs ++ (k ∷ ys)) ≡ false
  unfolding has_key
  absent_right k key xs ys s eq lt f = ground (
    arith,
    has_key-append key xs (k ∷ ys),
    eq_swap k key,
    eq,
    f,
    has_key_below key k xs (Sorted-halves xs k ys s).1 lt,
  )

  absent_left :
      (k key : K) (xs ys : List K)
      → Sorted (xs ++ (k ∷ ys))
      → o.eq_key k key ≡ false
      → o.lt_key k key ≡ false
      → has_key key xs ≡ false
      → has_key key (xs ++ (k ∷ ys)) ≡ false
  unfolding has_key
  absent_left k key xs ys s eq lt f = ground (
    arith,
    has_key-append key xs (k ∷ ys),
    eq_swap k key,
    eq,
    f,
    has_key_above key k ys (Sorted-halves xs k ys s).2 lt,
  )

  pub lookup_link :
      (fuel : ℕ) (h : Nodes K) (t : Shape K) (p : Option (FreeListIndex × Node K × Edge)) (key : K)
      → Represents h t
      → Sorted (keys t)
      → height t ≤ fuel
      → ((has_key key (keys t) ≡ false)
          × (from_link (λ c. lookup_from fuel c p key h) none (link t) ≡ done none))
        ⊎ Found t p key (from_link (λ c. lookup_from fuel c p key h) none (link t))
  unfolding has_key
  lookup_link fuel h leaf p key e s f = inl (refl, refl)
  lookup_link zero h (branch i k l r) p key e s f = absurd (omega (arith, f))
  lookup_link (suc fuel) h (branch i k l r) p key e s f =
      let halves = Sorted-halves (keys l) k (keys r) s in
      elim (Bool-cases (o.eq_key k key)) [
        | inl eq ↦
            let same = o.eq_sound k key eq in
            inr (record {
              i = i;
              l = l;
              r = r;
              par = p;
              place = inl (eq, ap (λ a. branch i a l r) same);
              found =
                  step_here fuel i p key h (node_of k l r) e.0 eq
                  ∙ ap (λ a. done (some ((i, node_of a l r), p))) same;
              up = inl (refl, ap (λ a. branch i a l r) same);
            })
        | inr ne ↦ elim (Bool-cases (o.lt_key k key)) [
          | inl lt ↦
              elim (lookup_link fuel h r (some (i, node_of k l r, right)) key e.2 halves.3
                (omega (arith, f))) [
                  | inl (out, run) ↦ inl (
                    absent_right k key (keys l) (keys r) s ne lt out,
                    step_right fuel i p key h (node_of k l r) e.0 ne lt ∙ run,
                  )
                  | inr w ↦ inr (
                      from_right i k l r p key s ne lt
                        (step_right fuel i p key h (node_of k l r) e.0 ne lt) w)
                ]
          | inr nl ↦
              elim (lookup_link fuel h l (some (i, node_of k l r, left)) key e.1 halves.0
                (omega (arith, f))) [
                  | inl (out, run) ↦ inl (
                    absent_left k key (keys l) (keys r) s ne nl out,
                    step_left fuel i p key h (node_of k l r) e.0 ne nl ∙ run,
                  )
                  | inr w ↦ inr (
                      from_left i k l r p key s ne nl
                        (step_left fuel i p key h (node_of k l r) e.0 ne nl) w)
                ]
        ]
      ]

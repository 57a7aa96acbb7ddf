-- ===== src/TreeMap/Enforce.antt =====
-- A node whose children differ by two in height is rebalanced as the tree is
-- (near-sdk/src/store/tree_map/mod.rs, enforce_balance).
use near_runtime_rs.Base.{
  ℕ, List, ◌+◌, ◌≡◌, ◌≢◌, ◌<◌, ltb, true, false, some, arith, refl, sym, ◌∙◌, subst, max, u32_size,
  Outcome, done, Bool-cases, ltb→lt, inl, inr,
}
use near_runtime_rs.FreeList.Defs.{FreeListIndex, get}
use near_runtime_rs.FreeList.Invariant.{IsFreeList}
use near_runtime_rs.TreeMap.Tree.{Node, Nodes, Panic}
use near_runtime_rs.TreeMap.Shape.{
  Shape, leaf, branch, height, link, occurs, size, lifted_left, lifted_right, lean_left, lean_right,
  balanced,
}
use near_runtime_rs.TreeMap.Slots.{put, get-put_ne, put-IsFreeList}
use near_runtime_rs.TreeMap.Balance.{get_balance, lift_left, lift_right, enforce_balance, settle}
use near_runtime_rs.TreeMap.Represents.{
  node_of, Represents, Represents-frame, Unique, height-le-size, height_of-link, child-link,
  update_height_lem, branch-Represents, Builds,
}
use near_runtime_rs.TreeMap.Rotation.{rotate_left_lem, rotate_right_lem}
use near_runtime_rs.TreeMap.Rebalanced.{occurs-balanced}

module _ {K : Type 0} where
  pub get_balance_lem :
      (h : Nodes K) (k : K) (l r : Shape K) (x : ℕ)
      → Represents h l
      → Represents h r
      → get_balance (record { key = k; lft = link l; rgt = link r; ht = x }) h
        ≡ done ((height l, height r), h)
  unfolding get_balance
  get_balance_lem h k l r x el er = ground (arith, height_of-link h l el, height_of-link h r er)

  module _ (h : Nodes K) (free : List FreeListIndex) (wf : IsFreeList h free) (i : FreeListIndex)
      (old : Node K) (k : K) (x : ℕ) (e : get i h ≡ some old) where
    lift_left_inner :
        (j : FreeListIndex) (m : K) (ll : Shape K) (q : FreeListIndex) (y : K) (a b r : Shape K)
        → Represents h (branch j m ll (branch q y a b))
        → Represents h r
        → Unique (branch i k (branch j m ll (branch q y a b)) r)
        → size (branch i k (branch j m ll (branch q y a b)) r) < u32_size
        → ltb (height ll) (height (branch q y a b)) ≡ true
        → Builds h
            (lifted_left i k (lifted_right j m ll (branch q y a b)) r)
            free
            (lift_left (record { key = k; lft = some j; rgt = link r; ht = x }) i h)
    unfolding lift_left lifted_right lifted_left
    lift_left_inner j m ll q y a b r el er u s t =
        let ui = u i in
        let inner =
          rotate_right_lem h free wf j (node_of m ll (branch q y a b)) m
            (1 + max (height ll) (height (branch q y a b))) el.0 q y ll a b el.1 el.2
            (λ p. ground (arith, u p)) (omega (arith, s)) in
        let at : get i inner.after ≡ some old = inner.frame i (ground (arith, ui)) ∙ e in
        let er' =
          Represents-frame h inner.after r (λ p ne. inner.frame p (ground (arith, u p))) er in
        let outer =
          rotate_left_lem inner.after free inner.valid i old k x at q y (branch j m ll a) b r
            inner.represents er' (λ p. ground (arith, u p)) (omega (arith, s)) in
        record {
          root = outer.root;
          after = outer.after;
          returns = ground (
            arith,
            child-link h j m ll (branch q y a b) el,
            get_balance_lem h m ll (branch q y a b) (1 + max (height ll) (height (branch q y a b)))
                el.1 el.2,
            t,
            inner.returns,
            inner.is_root,
            outer.returns,
          );
          is_root = outer.is_root;
          represents = outer.represents;
          frame =
              λ p out. outer.frame p (ground (arith, out)) ∙ inner.frame p (ground (arith, out));
          valid = outer.valid;
        }

    lift_left_outer :
        (j : FreeListIndex) (m : K) (ll lr r : Shape K)
        → Represents h (branch j m ll lr)
        → Represents h r
        → Unique (branch i k (branch j m ll lr) r)
        → size (branch i k (branch j m ll lr) r) < u32_size
        → ltb (height ll) (height lr) ≡ false
        → Builds h
            (lifted_left i k (branch j m ll lr) r)
            free
            (lift_left (record { key = k; lft = some j; rgt = link r; ht = x }) i h)
    unfolding lift_left
    lift_left_outer j m ll lr r el er u s t =
        let outer = rotate_left_lem h free wf i old k x e j m ll lr r el er u s in
        record {
          root = outer.root;
          after = outer.after;
          returns = ground (
            arith,
            child-link h j m ll lr el,
            get_balance_lem h m ll lr (1 + max (height ll) (height lr)) el.1 el.2,
            t,
            outer.returns,
          );
          is_root = outer.is_root;
          represents = outer.represents;
          frame = outer.frame;
          valid = outer.valid;
        }

    pub lift_left_lem :
        (j : FreeListIndex) (m : K) (ll lr r : Shape K)
        → Represents h (branch j m ll lr)
        → Represents h r
        → Unique (branch i k (branch j m ll lr) r)
        → size (branch i k (branch j m ll lr) r) < u32_size
        → Builds h
            (lifted_left i k (lean_left (branch j m ll lr)) r)
            free
            (lift_left (record { key = k; lft = some j; rgt = link r; ht = x }) i h)
    unfolding lean_left
    lift_left_lem j m ll leaf r el er u s =
        let t : ltb (height ll) 0 ≡ false = ground arith in
        rw t (lift_left_outer j m ll leaf r el er u s t)
    lift_left_lem j m ll (branch q y a b) r el er u s =
        elim (Bool-cases (ltb (height ll) (height (branch q y a b)))) [
          | inl t ↦ rw t (lift_left_inner j m ll q y a b r el er u s t)
          | inr t ↦ rw t (lift_left_outer j m ll (branch q y a b) r el er u s t)
        ]

    lift_right_inner :
        (j : FreeListIndex) (m : K) (rr : Shape K) (q : FreeListIndex) (y : K) (a b l : Shape K)
        → Represents h l
        → Represents h (branch j m (branch q y a b) rr)
        → Unique (branch i k l (branch j m (branch q y a b) rr))
        → size (branch i k l (branch j m (branch q y a b) rr)) < u32_size
        → ltb (height rr) (height (branch q y a b)) ≡ true
        → Builds h
            (lifted_right i k l (lifted_left j m (branch q y a b) rr))
            free
            (lift_right (record { key = k; lft = link l; rgt = some j; ht = x }) i h)
    unfolding lift_right lifted_left lifted_right
    lift_right_inner j m rr q y a b l el er u s t =
        let ui = u i in
        let inner =
          rotate_left_lem h free wf j (node_of m (branch q y a b) rr) m
            (1 + max (height (branch q y a b)) (height rr)) er.0 q y a b rr er.1 er.2
            (λ p. ground (arith, u p)) (omega (arith, s)) in
        let at : get i inner.after ≡ some old = inner.frame i (ground (arith, ui)) ∙ e in
        let el' =
          Represents-frame h inner.after l (λ p ne. inner.frame p (ground (arith, u p))) el in
        let outer =
          rotate_right_lem inner.after free inner.valid i old k x at q y l a (branch j m b rr) el'
            inner.represents (λ p. ground (arith, u p)) (omega (arith, s)) in
        record {
          root = outer.root;
          after = outer.after;
          returns = ground (
            arith,
            child-link h j m (branch q y a b) rr er,
            get_balance_lem h m (branch q y a b) rr (1 + max (height (branch q y a b)) (height rr))
                er.1 er.2,
            t,
            inner.returns,
            inner.is_root,
            outer.returns,
          );
          is_root = outer.is_root;
          represents = outer.represents;
          frame =
              λ p out. outer.frame p (ground (arith, out)) ∙ inner.frame p (ground (arith, out));
          valid = outer.valid;
        }

    lift_right_outer :
        (j : FreeListIndex) (m : K) (l rl rr : Shape K)
        → Represents h l
        → Represents h (branch j m rl rr)
        → Unique (branch i k l (branch j m rl rr))
        → size (branch i k l (branch j m rl rr)) < u32_size
        → ltb (height rr) (height rl) ≡ false
        → Builds h
            (lifted_right i k l (branch j m rl rr))
            free
            (lift_right (record { key = k; lft = link l; rgt = some j; ht = x }) i h)
    unfolding lift_right
    lift_right_outer j m l rl rr el er u s t =
        let outer = rotate_right_lem h free wf i old k x e j m l rl rr el er u s in
        record {
          root = outer.root;
          after = outer.after;
          returns = ground (
            arith,
            child-link h j m rl rr er,
            get_balance_lem h m rl rr (1 + max (height rl) (height rr)) er.1 er.2,
            t,
            outer.returns,
          );
          is_root = outer.is_root;
          represents = outer.represents;
          frame = outer.frame;
          valid = outer.valid;
        }

    pub lift_right_lem :
        (j : FreeListIndex) (m : K) (l rl rr : Shape K)
        → Represents h l
        → Represents h (branch j m rl rr)
        → Unique (branch i k l (branch j m rl rr))
        → size (branch i k l (branch j m rl rr)) < u32_size
        → Builds h
            (lifted_right i k l (lean_right (branch j m rl rr)))
            free
            (lift_right (record { key = k; lft = link l; rgt = some j; ht = x }) i h)
    unfolding lean_right
    lift_right_lem j m l leaf rr el er u s =
        let t : ltb (height rr) 0 ≡ false = ground arith in
        rw t (lift_right_outer j m l leaf rr el er u s t)
    lift_right_lem j m l (branch q y a b) rr el er u s =
        elim (Bool-cases (ltb (height rr) (height (branch q y a b)))) [
          | inl t ↦ rw t (lift_right_inner j m rr q y a b l el er u s t)
          | inr t ↦ rw t (lift_right_outer j m l (branch q y a b) rr el er u s t)
        ]

  -- The same tree, returned by another computation.
  pub retell :
      {h : Nodes K} {t t' : Shape K} {free : List FreeListIndex}
      {o o' : Outcome Panic (FreeListIndex × Nodes K)}
      → t' ≡ t
      → o' ≡ o
      → Builds h t free o
      → Builds h t' free o'
  retell {h} {t} {t'} {free} {o} {o'} p q b =
      subst (λ a. Builds h a free o') (sym p) (subst (Builds h t free) (sym q) b)

  module _ (h : Nodes K) (free : List FreeListIndex) (wf : IsFreeList h free) (i : FreeListIndex)
      (k : K) where
    balanced_left :
        (l r : Shape K)
        → ltb (height r + 1) (height l) ≡ true
        → balanced i k l r ≡ lifted_left i k (lean_left l) r
    unfolding balanced
    balanced_left l r t = ground (arith, t)

    balanced_right :
        (l r : Shape K)
        → ltb (height r + 1) (height l) ≡ false
        → ltb (height l + 1) (height r) ≡ true
        → balanced i k l r ≡ lifted_right i k l (lean_right r)
    unfolding balanced
    balanced_right l r f t = ground (arith, f, t)

    balanced_none :
        (l r : Shape K)
        → ltb (height r + 1) (height l) ≡ false
        → ltb (height l + 1) (height r) ≡ false
        → balanced i k l r ≡ branch i k l r
    unfolding balanced
    balanced_none l r f t = ground (arith, f, t)

    -- The node at `i`, with the two subtrees below it.
    module _ (l r : Shape K) (el : Represents h l) (er : Represents h r)
        (u : Unique (branch i k l r)) (s : size (branch i k l r) < u32_size)
        (here : get i h ≡ some (node_of k l r)) where
      enforce_none :
          ltb (height r + 1) (height l) ≡ false
          → ltb (height l + 1) (height r) ≡ false
          → Builds h (balanced i k l r) free (enforce_balance (node_of k l r) i h)
      unfolding enforce_balance
      enforce_none f t =
          retell (balanced_none l r f t)
            (ground (arith, f, t, get_balance_lem h k l r (1 + max (height l) (height r)) el er))
            (record {
              root = i;
              after = h;
              returns = refl;
              is_root = refl;
              represents = (here, el, er);
              frame = λ p out. refl;
              valid = wf;
            })

    enforce_left :
        (l r : Shape K)
        → Represents h l
        → Represents h r
        → Unique (branch i k l r)
        → size (branch i k l r) < u32_size
        → get i h ≡ some (node_of k l r)
        → ltb (height r + 1) (height l) ≡ true
        → Builds h (balanced i k l r) free (enforce_balance (node_of k l r) i h)
    unfolding enforce_balance
    enforce_left leaf r el er u s here t = absurd (omega (arith, ltb→lt (height r + 1) 0 t))
    enforce_left (branch j m ll lr) r el er u s here t =
        retell (balanced_left (branch j m ll lr) r t)
          (ground (
            arith,
            t,
            get_balance_lem h k (branch j m ll lr) r
                (1 + max (height (branch j m ll lr)) (height r)) el er,
          ))
          (lift_left_lem h free wf i (node_of k (branch j m ll lr) r) k
            (1 + max (height (branch j m ll lr)) (height r)) here j m ll lr r el er u s)

    enforce_right :
        (l r : Shape K)
        → Represents h l
        → Represents h r
        → Unique (branch i k l r)
        → size (branch i k l r) < u32_size
        → get i h ≡ some (node_of k l r)
        → ltb (height r + 1) (height l) ≡ false
        → ltb (height l + 1) (height r) ≡ true
        → Builds h (balanced i k l r) free (enforce_balance (node_of k l r) i h)
    unfolding enforce_balance
    enforce_right l leaf el er u s here f t = absurd (omega (arith, ltb→lt (height l + 1) 0 t))
    enforce_right l (branch j m rl rr) el er u s here f t =
        retell (balanced_right l (branch j m rl rr) f t)
          (ground (
            arith,
            f,
            t,
            get_balance_lem h k l (branch j m rl rr)
                (1 + max (height l) (height (branch j m rl rr))) el er,
          ))
          (lift_right_lem h free wf i (node_of k l (branch j m rl rr)) k
            (1 + max (height l) (height (branch j m rl rr))) here j m l rl rr el er u s)

    pub enforce_balance_lem :
        (l r : Shape K)
        → Represents h l
        → Represents h r
        → Unique (branch i k l r)
        → size (branch i k l r) < u32_size
        → get i h ≡ some (node_of k l r)
        → Builds h (balanced i k l r) free (enforce_balance (node_of k l r) i h)
    enforce_balance_lem l r el er u s here = elim (Bool-cases (ltb (height r + 1) (height l))) [
      | inl t ↦ enforce_left l r el er u s here t
      | inr f ↦ elim (Bool-cases (ltb (height l + 1) (height r))) [
        | inl t ↦ enforce_right l r el er u s here f t
        | inr t ↦ enforce_none l r el er u s here f t
      ]
    ]

  -- The node's own height is brought up to date, and then it is rebalanced.
  pub settle_lem :
      (h : Nodes K) (free : List FreeListIndex) (i : FreeListIndex) (old : Node K) (k : K)
      (l r : Shape K) (x : ℕ)
      → IsFreeList h free
      → get i h ≡ some old
      → Represents h l
      → Represents h r
      → Unique (branch i k l r)
      → size (branch i k l r) < u32_size
      → Builds h
          (balanced i k l r)
          free
          (settle (record { key = k; lft = link l; rgt = link r; ht = x }) i h)
  unfolding settle
  settle_lem h free i old k l r x wf e el er u s =
      let ui = u i in
      let h1 = put i (node_of k l r) h in
      let rep = branch-Represents h i old k l r e el er (ground (arith, ui)) (ground (arith, ui)) in
      let b =
        enforce_balance_lem h1 free (put-IsFreeList i old (node_of k l r) h free e wf) i k l r rep.1
          rep.2 u s rep.0 in
      record {
        root = b.root;
        after = b.after;
        returns = ground (
          arith,
          b.returns,
          update_height_lem h i old k l r x e el er
              (ground (arith, s, height-le-size l, height-le-size r)),
        );
        is_root = b.is_root;
        represents = b.represents;
        frame = λ p out. b.frame p out ∙ get-put_ne i p old (node_of k l r) h e (outside p out);
        valid = b.valid;
      }
    where
      outside : (p : FreeListIndex) → occurs p (balanced i k l r) ≡ 0 → p ≢ i
      outside p out = λ q. ground (arith, q, out, occurs-balanced i k l r p)

-- ===== src/TreeMap/Rotation.antt =====
-- Rotations and rebalancing of the nodes do what they do on trees
-- (near-sdk/src/store/tree_map/mod.rs).
use near_runtime_rs.Base.{ℕ, List, ◌+◌, ◌≡◌, ◌≢◌, ◌<◌, some, arith, refl, ◌∙◌, max, u32_size}
use near_runtime_rs.FreeList.Defs.{FreeListIndex, get}
use near_runtime_rs.FreeList.Invariant.{IsFreeList}
use near_runtime_rs.TreeMap.Tree.{Node, Nodes}
use near_runtime_rs.TreeMap.Shape.{Shape, branch, height, link, size, lifted_left, lifted_right}
use near_runtime_rs.TreeMap.Slots.{put, get-put_ne, put-IsFreeList}
use near_runtime_rs.TreeMap.Balance.{rotate_left, rotate_right}
use near_runtime_rs.TreeMap.Represents.{
  node_of, Represents, Unique, height-le-size, Represents-put, child-link, update_height_lem,
  branch-Represents, Builds,
}

module _ {K : Type 0} where
  module _ (h : Nodes K) (free : List FreeListIndex) (wf : IsFreeList h free) (i : FreeListIndex)
      (old : Node K) (k : K) (x : ℕ) (e : get i h ≡ some old) where
    pub rotate_left_lem :
        (j : FreeListIndex) (m : K) (ll lr r : Shape K)
        → Represents h (branch j m ll lr)
        → Represents h r
        → Unique (branch i k (branch j m ll lr) r)
        → size (branch i k (branch j m ll lr) r) < u32_size
        → Builds h
            (lifted_left i k (branch j m ll lr) r)
            free
            (rotate_left (record { key = k; lft = some j; rgt = link r; ht = x }) i h)
    unfolding rotate_left lifted_left
    rotate_left_lem j m ll lr r el er u b =
        let ui = u i in
        let uj = u j in
        let h1 = put i (node_of k lr r) h in
        let ne : j ≢ i = (ground (arith, ui, uj)) in
        let e1 : get j h1 ≡ some (node_of m ll lr) =
          get-put_ne i j old (node_of k lr r) h e ne ∙ el.0 in
        let low =
          branch-Represents h i old k lr r e el.2 er (ground (arith, ui, uj))
            (ground (arith, ui, uj)) in
        let ell = Represents-put h i old (node_of k lr r) ll e (ground (arith, ui, uj)) el.1 in
        let t = branch i k lr r in
        record {
          root = j;
          after = put j (node_of m ll t) h1;
          returns = ground (
            arith,
            child-link h j m ll lr el,
            e1,
            update_height_lem h i old k lr r x e el.2 er
                (ground (arith, b, height-le-size lr, height-le-size r)),
            update_height_lem h1 j (node_of m ll lr) m ll t (1 + max (height ll) (height lr)) e1 ell
                low (ground (arith, b, height-le-size ll, height-le-size lr, height-le-size r)),
          );
          is_root = refl;
          represents =
              branch-Represents h1 j (node_of m ll lr) m ll t e1 ell low (ground (arith, ui, uj))
                (ground (arith, ui, uj));
          frame = λ s out.
              let ns : s ≢ j = ground (arith, out) in
              let ni : s ≢ i = ground (arith, out) in
              get-put_ne j s (node_of m ll lr) (node_of m ll t) h1 e1 ns
              ∙ get-put_ne i s old (node_of k lr r) h e ni;
          valid =
              put-IsFreeList j (node_of m ll lr) (node_of m ll t) h1 free e1
                (put-IsFreeList i old (node_of k lr r) h free e wf);
        }

    pub rotate_right_lem :
        (j : FreeListIndex) (m : K) (l rl rr : Shape K)
        → Represents h l
        → Represents h (branch j m rl rr)
        → Unique (branch i k l (branch j m rl rr))
        → size (branch i k l (branch j m rl rr)) < u32_size
        → Builds h
            (lifted_right i k l (branch j m rl rr))
            free
            (rotate_right (record { key = k; lft = link l; rgt = some j; ht = x }) i h)
    unfolding rotate_right lifted_right
    rotate_right_lem j m l rl rr el er u b =
        let ui = u i in
        let uj = u j in
        let h1 = put i (node_of k l rl) h in
        let ne : j ≢ i = (ground (arith, ui, uj)) in
        let e1 : get j h1 ≡ some (node_of m rl rr) =
          get-put_ne i j old (node_of k l rl) h e ne ∙ er.0 in
        let low =
          branch-Represents h i old k l rl e el er.1 (ground (arith, ui, uj))
            (ground (arith, ui, uj)) in
        let err = Represents-put h i old (node_of k l rl) rr e (ground (arith, ui, uj)) er.2 in
        let t = branch i k l rl in
        record {
          root = j;
          after = put j (node_of m t rr) h1;
          returns = ground (
            arith,
            child-link h j m rl rr er,
            e1,
            update_height_lem h i old k l rl x e el er.1
                (ground (arith, b, height-le-size l, height-le-size rl)),
            update_height_lem h1 j (node_of m rl rr) m t rr (1 + max (height rl) (height rr)) e1 low
                err (ground (arith, b, height-le-size l, height-le-size rl, height-le-size rr)),
          );
          is_root = refl;
          represents =
              branch-Represents h1 j (node_of m rl rr) m t rr e1 low err (ground (arith, ui, uj))
                (ground (arith, ui, uj));
          frame = λ s out.
              let ns : s ≢ j = ground (arith, out) in
              let ni : s ≢ i = ground (arith, out) in
              get-put_ne j s (node_of m rl rr) (node_of m t rr) h1 e1 ns
              ∙ get-put_ne i s old (node_of k l rl) h e ni;
          valid =
              put-IsFreeList j (node_of m rl rr) (node_of m t rr) h1 free e1
                (put-IsFreeList i old (node_of k l rl) h free e wf);
        }

-- ===== src/TreeMap/Represents.antt =====
-- When the nodes stand for a tree, and how a write to one node changes that
-- (near-sdk/src/store/tree_map/mod.rs).
use near_runtime_rs.Base.{
  ℕ, List, ◌+◌, ◌≡◌, ◌≢◌, ◌≤◌, ◌<◌, none, some, arith, refl, ap, ◌∙◌, max, u32_size, Outcome, done,
}
use near_runtime_rs.FreeList.Defs.{FreeListIndex, get}
use near_runtime_rs.FreeList.Invariant.{IsFreeList}
use near_runtime_rs.TreeMap.Tree.{Node, Nodes, Panic, height_of, child}
use near_runtime_rs.TreeMap.Shape.{Shape, leaf, branch, height, link, occurs, size}
use near_runtime_rs.TreeMap.Slots.{put, get-put_self, get-put_ne}
use near_runtime_rs.TreeMap.Balance.{write_node, update_height}

module _ {K : Type 0} where
  abbrev pub node_of : K → Shape K → Shape K → Node K
  node_of k l r = record { key = k; lft = link l; rgt = link r; ht = 1 + max (height l) (height r) }

  -- Every node of the tree is in its slot, with the indices of its children and its height.
  abbrev pub Represents : Nodes K → Shape K → Type 0
  Represents h leaf = Unit
  Represents h (branch i k l r) = (get i h ≡ some (node_of k l r)) × Represents h l × Represents h r

  -- No slot is used twice.
  abbrev pub Unique : Shape K → Type 0
  Unique t = (j : FreeListIndex) → occurs j t ≤ 1

  pub height-le-size : (t : Shape K) → height t ≤ size t
  height-le-size leaf = omega arith
  height-le-size (branch i k l r) = omega (arith, height-le-size l, height-le-size r)

  -- Slots outside of the tree do not matter.
  pub Represents-frame :
      (h h' : Nodes K) (t : Shape K)
      → ((j : FreeListIndex) → occurs j t ≢ 0 → get j h' ≡ get j h)
      → Represents h t
      → Represents h' t
  Represents-frame h h' leaf same r = tt
  Represents-frame h h' (branch i k l r) same (e, el, er) = (
    same i (ground arith) ∙ e,
    Represents-frame h h' l (λ j ne. same j (omega arith)) el,
    Represents-frame h h' r (λ j ne. same j (omega arith)) er,
  )

  pub vacant-occurs :
      (h : Nodes K) (m : FreeListIndex) (t : Shape K)
      → get m h ≡ none
      → Represents h t
      → occurs m t ≡ 0
  vacant-occurs h m leaf v r = refl
  vacant-occurs h m (branch i k l r) v e =
      let ne : (m ≡ i) → ⊥ = λ p. ground (arith, p, v, e.0) in
      ground (arith, ne, vacant-occurs h m l v e.1, vacant-occurs h m r v e.2)

  pub Represents-put :
      (h : Nodes K) (i : FreeListIndex) (old x : Node K) (t : Shape K)
      → get i h ≡ some old
      → occurs i t ≡ 0
      → Represents h t
      → Represents (put i x h) t
  Represents-put h i old x t e out r =
      Represents-frame h (put i x h) t
        (λ j ne. get-put_ne i j old x h e (λ p. ne (ap (λ k. occurs k t) p ∙ out))) r

  pub height_of-link :
      (h : Nodes K) (t : Shape K) → Represents h t → height_of (link t) h ≡ height t
  unfolding height_of
  height_of-link h leaf r = refl
  height_of-link h (branch i k l r) e = ground (arith, e.0)

  pub child-link :
      (h : Nodes K) (i : FreeListIndex) (k : K) (l r : Shape K)
      → Represents h (branch i k l r)
      → child (some i) h ≡ some (i, node_of k l r)
  unfolding child
  child-link h i k l r e = ground (arith, e.0)

  pub write_node_lem :
      (h : Nodes K) (i : FreeListIndex) (old x : Node K)
      → get i h ≡ some old
      → write_node i x h ≡ done (tt, put i x h)
  unfolding write_node
  write_node_lem h i old x e = ground (arith, e)

  pub update_height_lem :
      (h : Nodes K) (i : FreeListIndex) (old : Node K) (k : K) (l r : Shape K) (x : ℕ)
      → get i h ≡ some old
      → Represents h l
      → Represents h r
      → 1 + max (height l) (height r) < u32_size
      → update_height (record { key = k; lft = link l; rgt = link r; ht = x }) i h
        ≡ done (node_of k l r, put i (node_of k l r) h)
  unfolding update_height
  update_height_lem h i old k l r x e el er b = ground (
    arith,
    height_of-link h l el,
    height_of-link h r er,
    b,
    write_node_lem h i old (node_of k l r) e,
  )

  pub branch-Represents :
      (h : Nodes K) (i : FreeListIndex) (old : Node K) (k : K) (l r : Shape K)
      → get i h ≡ some old
      → Represents h l
      → Represents h r
      → occurs i l ≡ 0
      → occurs i r ≡ 0
      → Represents (put i (node_of k l r) h) (branch i k l r)
  branch-Represents h i old k l r e el er ol or = (
    get-put_self i old (node_of k l r) h e,
    Represents-put h i old (node_of k l r) l e ol el,
    Represents-put h i old (node_of k l r) r e or er,
  )

  -- A computation returns the root of a tree that its nodes stand for then, and leaves every slot
  -- outside of that tree alone.
  pub record Builds (h : Nodes K) (t : Shape K) (free : List FreeListIndex)
      (o : Outcome Panic (FreeListIndex × Nodes K)) : Type 0 where
    pub root : FreeListIndex
    pub after : Nodes K
    pub returns : o ≡ done (root, after)
    pub is_root : link t ≡ some root
    pub represents : Represents after t
    pub frame : (j : FreeListIndex) → occurs j t ≡ 0 → get j after ≡ get j h
    pub valid : IsFreeList after free

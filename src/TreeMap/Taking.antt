-- ===== src/TreeMap/Taking.antt =====
-- The steps of a removal on the nodes: a slot is emptied, a node is written, a key is moved
-- (near-sdk/src/store/tree_map/mod.rs, do_remove).
use near_runtime_rs.Base.{List, ◌≡◌, ◌≢◌, none, some, done, arith, ap, ◌∙◌, inl, inr}
use near_runtime_rs.FreeList.Defs.{FreeListIndex, FreeList, get}
use near_runtime_rs.FreeList.Defs as FreeList
use near_runtime_rs.FreeList.Invariant.{IsFreeList}
use near_runtime_rs.FreeList.Remove.{remove_lem}
use near_runtime_rs.TreeMap.Ord.{Ord}
use near_runtime_rs.TreeMap.Tree.{Node, Nodes, on_list}
use near_runtime_rs.TreeMap.Remove.{remove_node}

module _ {K : Type 0} ⦃o : Ord K⦄ where
  -- A node was taken out of its slot.
  pub record Emptied (h : Nodes K) (m : FreeListIndex) (n : Node K) : Type 0 where
    pub after : Nodes K
    pub free : List FreeListIndex
    pub returns : remove_node m h ≡ done (n, after)
    pub valid : IsFreeList after free
    pub gone : get m after ≡ none
    pub others : (j : FreeListIndex) → j ≢ m → get j after ≡ get j h

  remove_node_run :
      (h h1 : Nodes K) (m : FreeListIndex) (n : Node K)
      → get m h ≡ some n
      → FreeList.remove m h ≡ done (get m h, h1)
      → remove_node m h ≡ done (n, h1)
  unfolding remove_node on_list
  remove_node_run h h1 m n e run = let r = run ∙ ap (λ x. done (x, h1)) e in ground (arith, r)

  pub remove_node_lem :
      (h : Nodes K) (free : List FreeListIndex) (m : FreeListIndex) (n : Node K)
      → IsFreeList h free
      → get m h ≡ some n
      → Emptied h m n
  remove_node_lem h free m n wf e =
      let (h1, free1, run, wf1, what) = remove_lem m h free wf in
      elim what [
        | inl (absent, _) ↦ absurd (ground (arith, absent, e))
        | inr (d, _) ↦ record {
          after = h1;
          free = free1;
          returns = remove_node_run h h1 m n e run;
          valid = wf1;
          gone = d.gone;
          others = d.others;
        }
      ]

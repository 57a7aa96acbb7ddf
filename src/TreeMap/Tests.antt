-- ===== src/TreeMap/Tests.antt =====
-- The map and its tree at concrete inputs (near-sdk/src/store/tree_map/mod.rs).
use near_runtime_rs.Base.{
  ℕ, zero, suc, ◌+◌, ◌*◌, ◌^◌, ◌≤◌, ◌≡◌, Option, none, some, List, [], ◌∷◌, done, refl, arith,
  ℕ_discrete,
}
use near_runtime_rs.Base.Dict.{nat_key}
use near_runtime_rs.FreeList.Defs.{FreeListIndex, occupied, empty, get, list_len, push_new}
use near_runtime_rs.FreeList.Defs as FreeList
use near_runtime_rs.TreeMap.Tree as Tree
use near_runtime_rs.FreeList.Invariant.{IsFreeList, count_occupied}
use near_runtime_rs.Store.Trie.{Bytes, Trie, Borsh}
use near_runtime_rs.Store.CacheEntry.{CacheEntry, modified, new_cached, replace}
use near_runtime_rs.Store.LookupMap.{ToKey, Stored, get_mut_inner}
use near_runtime_rs.Store.LookupView.{IsCache, view}
use near_runtime_rs.TreeMap.Ord.{nat_ord}
use near_runtime_rs.TreeMap.Tree.{Tree, on_list, height_of, ceil_key, floor_key}
use near_runtime_rs.TreeMap.Shape.{Shape, leaf, branch, keys}
use near_runtime_rs.TreeMap.Balance.{
  internal_insert, insert_root, settle, update_height, write_node, enforce_balance, get_balance,
}
use near_runtime_rs.TreeMap.SortedKeys.{has_key, erase, insert_sorted, next_above, last_below}
use near_runtime_rs.TreeMap.Represents.{Unique}
use near_runtime_rs.TreeMap.Count.{Full}
use near_runtime_rs.TreeMap.InsertKeys.{IsTree, internal_insert_lem}
use near_runtime_rs.TreeMap.Lookup.{nearest_lem}
use near_runtime_rs.TreeMap.Reachable.{Reachable, start, inserted, depth_bound, Reachable-IsMap}
use near_runtime_rs.TreeMap.Map.{TreeMap, get_key_value, with_hasher, insert, len}
use near_runtime_rs.TreeMap.RemoveKeys.{do_remove_lem}
use near_runtime_rs.TreeMap.MapRemove.{Dropped, map_remove_lem}
use near_runtime_rs.TreeMap.DoRemove.{do_remove}
use near_runtime_rs.TreeMap.MapInsert.{IsMap, Added, map_insert_lem, get_key_value_lem}

-- 8 below 5 on the right, and one free slot: a further key above them asks for a rotation.
abbrev two : Tree ℕ
two = record {
  root = some 0;
  nodes = record {
    first_free = some 2;
    occupied_count = 2;
    elements =
        occupied (record { key = 5; lft = none; rgt = some 1; ht = 2 })
        ∷ occupied (record { key = 8; lft = none; rgt = none; ht = 1 })
        ∷ empty none
        ∷ [];
  };
}

abbrev two_shape : Shape ℕ
two_shape = branch 0 5 leaf (branch 1 8 leaf leaf)

two-IsFreeList : IsFreeList two.nodes (2 ∷ [])
unfolding count_occupied
two-IsFreeList = record {
  chain = (refl, (none, refl, tt));
  nodup = (tt, tt);
  count = refl;
  total = refl;
  bound = omega arith;
}

two-Unique : Unique two_shape
two-Unique j = ground arith

two-Full : Full two.nodes two_shape
unfolding get
two-Full zero = ground arith
two-Full (suc zero) = ground arith
two-Full (suc (suc zero)) = ground arith
two-Full (suc (suc (suc j))) = ground arith

two-IsTree : IsTree two two_shape (2 ∷ [])
unfolding get
two-IsTree = record {
  root = refl;
  represents = (refl, tt, (refl, tt, tt));
  unique = two-Unique;
  avl = ground arith;
  sorted = ((refl, tt), (tt, tt));
  slots = two-IsFreeList;
  full = two-Full;
}

internal_insert_lem_example :
    (t' : Tree ℕ) × (s' : Shape ℕ) × (free' : List FreeListIndex) × (internal_insert 9 two
      ≡ done t')
    × IsTree t' s' free'
    × (keys s' ≡ 5 ∷ 8 ∷ 9 ∷ [])
unfolding has_key insert_sorted
internal_insert_lem_example =
    internal_insert_lem 9 two two_shape (2 ∷ []) two-IsTree refl (λ _. omega arith)

nearest_lem_example : (ceil_key two 6 ≡ done (some 8)) × (floor_key two 6 ≡ done (some 5))
unfolding has_key next_above last_below
nearest_lem_example = nearest_lem 6 two two_shape (2 ∷ []) two-IsTree

-- One byte to a value.
abbrev byte_read : Bytes → Option ℕ
byte_read (b ∷ []) = some b
byte_read bytes = none

byte_round : (x : ℕ) (b : Bytes) → some (x ∷ []) ≡ some b → byte_read b ≡ some x
byte_round x [] h = cc
byte_round x (y ∷ []) h = cc
byte_round x (y ∷ z ∷ b) h = cc

abbrev byte : Borsh ℕ
byte = record {
  serialize = λ x. some (x ∷ []);
  deserialize = byte_read;
  deserialize-serialize = byte_round;
}

abbrev key_bytes : ToKey ℕ
key_bytes prefix k = k ∷ prefix

abbrev fresh : ℕ → CacheEntry ℕ
fresh v = record { value = some v; state = modified }

abbrev no_storage : Trie
no_storage k = none

abbrev held : Stored ℕ ℕ
held = record {
  map = record { prefix = 118 ∷ []; cache = (5, fresh 50) ∷ (8, fresh 80) ∷ [] };
  trie = no_storage;
}

abbrev two_values : TreeMap ℕ ℕ
two_values = record { values = held; tree = two }

held-IsCache : IsCache byte key_bytes held
unfolding ℕ_discrete
held-IsCache = record {
  readable = λ k b h. absurd (ground (arith, h));
  clean = λ k e h st. absurd (ground (arith, h, st));
  distinct = (refl, (refl, tt));
}

two-IsMap : IsMap byte key_bytes two_values two_shape (2 ∷ [])
unfolding has_key
two-IsMap = record { cache = held-IsCache; tree = two-IsTree; same = λ k. ground arith }

map_insert_lem_example : Added byte key_bytes 9 90 two_values two_shape
map_insert_lem_example =
    map_insert_lem byte key_bytes 9 90 two_values two_shape (2 ∷ []) two-IsMap (λ _ _. omega arith)

get_key_value_lem_example :
    (m' : TreeMap ℕ ℕ) × (get_key_value byte key_bytes 8 two_values ≡ done (some (8, 80), m'))
    × IsMap byte key_bytes m' two_shape (2 ∷ [])
    × ((j : ℕ) → view byte key_bytes m'.values j ≡ view byte key_bytes two_values.values j)
unfolding ℕ_discrete
get_key_value_lem_example =
    get_key_value_lem byte key_bytes 8 two_values two_shape (2 ∷ []) two-IsMap

do_remove_lem_example :
    (t' : Tree ℕ) × (s' : Shape ℕ) × (free' : List FreeListIndex) × (do_remove 5 two
      ≡ done (some 5, t'))
    × IsTree t' s' free'
    × (keys s' ≡ 8 ∷ [])
unfolding has_key erase
do_remove_lem_example = do_remove_lem 5 two two_shape (2 ∷ []) two-IsTree

map_remove_lem_example : Dropped byte key_bytes 5 two_values two_shape
map_remove_lem_example = map_remove_lem byte key_bytes 5 two_values two_shape (2 ∷ []) two-IsMap

abbrev blank : TreeMap ℕ ℕ
blank = with_hasher [] no_storage

abbrev only_five : TreeMap ℕ ℕ
only_five = record {
  values = record {
    map = record { prefix = 118 ∷ []; cache = (5, fresh 50) ∷ [] };
    trie = no_storage;
  };
  tree = record {
    root = some 0;
    nodes = record {
      first_free = none;
      occupied_count = 1;
      elements = occupied (record { key = 5; lft = none; rgt = none; ht = 1 }) ∷ [];
    };
  };
}

insert_runs : insert byte key_bytes 5 50 blank ≡ done (none, only_five)
unfolding insert get_mut_inner with_hasher new_cached internal_insert insert_root Tree.new on_list
    FreeList.insert FreeList.new push_new ℕ_discrete replace
insert_runs = refl

only_five-Reachable : Reachable byte key_bytes only_five
only_five-Reachable =
    inserted 5 50 none blank only_five (start [] no_storage (λ k. refl)) insert_runs

abbrev five_eight : TreeMap ℕ ℕ
five_eight = record {
  values = record {
    map = record { prefix = 118 ∷ []; cache = (5, fresh 50) ∷ (8, fresh 80) ∷ [] };
    trie = no_storage;
  };
  tree = record {
    root = some 0;
    nodes = record {
      first_free = none;
      occupied_count = 2;
      elements =
          occupied (record { key = 5; lft = none; rgt = some 1; ht = 2 })
          ∷ occupied (record { key = 8; lft = none; rgt = none; ht = 1 })
          ∷ [];
    };
  };
}

second_insert_runs : insert byte key_bytes 8 80 only_five ≡ done (none, five_eight)
unfolding insert get_mut_inner with_hasher new_cached internal_insert insert_root Tree.new on_list
    FreeList.insert FreeList.new push_new ℕ_discrete replace get settle update_height height_of
    write_node enforce_balance get_balance FreeList.get_mut
second_insert_runs = refl

five_eight-Reachable : Reachable byte key_bytes five_eight
five_eight-Reachable =
    inserted 8 80 none only_five five_eight only_five-Reachable second_insert_runs

depth_bound_example :
    (2 ^ height_of five_eight.tree.root five_eight.tree.nodes
      ≤ (len five_eight + 1) * (len five_eight + 1))
    × (height_of five_eight.tree.root five_eight.tree.nodes ≤ 64)
depth_bound_example = depth_bound byte key_bytes five_eight five_eight-Reachable

Reachable-IsMap_example :
    (s : Shape ℕ) × (free : List FreeListIndex) × IsMap byte key_bytes five_eight s free
Reachable-IsMap_example = Reachable-IsMap byte key_bytes five_eight five_eight-Reachable

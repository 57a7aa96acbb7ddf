-- ===== src/Collections/Tests.antt =====
-- The uncached collections at concrete inputs.
use near_runtime_rs.Base.{◌≡◌, ◌≢◌, sym, Option, none, some, [], ◌∷◌, done, arith, refl}
use near_runtime_rs.Store.Trie.{Bytes, Trie, Borsh}
use near_runtime_rs.Collections.Vector.{Storage, new, push_raw, swap_remove_raw}
use near_runtime_rs.Collections.Holds.{Holds, Frees}
use near_runtime_rs.Collections.VectorLaws.{push_raw_lem, swap_remove_raw_lem}
use near_runtime_rs.Collections.LookupMap.{LookupMap}
use near_runtime_rs.Collections.LookupMap
use near_runtime_rs.Collections.LookupLaws.{get_lem, lookup_insert_lem, lookup_remove_lem}
use near_runtime_rs.Collections.LookupLaws

abbrev nothing : Storage
nothing = record { vec = new (7 ∷ []); trie = λ _. none }

nothing-Holds : Holds nothing []
unfolding new
nothing-Holds = record { measured = refl; bounded = omega arith; stored = λ i x e. cc }

push_raw_lem_example :
    (u : Storage) × (push_raw (3 ∷ []) nothing ≡ done (tt, u)) × Holds u ((3 ∷ []) ∷ [])
push_raw_lem_example = push_raw_lem nothing [] nothing-Holds (3 ∷ []) (omega arith)

one : (u : Storage) × (push_raw (3 ∷ []) nothing ≡ done (tt, u)) × Holds u ((3 ∷ []) ∷ [])
one = push_raw_lem nothing [] nothing-Holds (3 ∷ []) (omega arith)

two :
    (u : Storage) × (push_raw (4 ∷ []) (one.0) ≡ done (tt, u)) × Holds u ((3 ∷ []) ∷ (4 ∷ []) ∷ [])
two = push_raw_lem (one.0) ((3 ∷ []) ∷ []) (one.2) (4 ∷ []) (omega arith)

swap_remove_raw_lem_example :
    (u : Storage) × (swap_remove_raw 0 (two.0) ≡ done (3 ∷ [], u))
    × Holds u ((4 ∷ []) ∷ [])
    × Frees 1 (two.0) u
swap_remove_raw_lem_example =
    swap_remove_raw_lem (two.0) ((3 ∷ []) ∷ (4 ∷ []) ∷ []) (two.2) 1 refl refl 0 refl

-- Bytes themselves as elements.
abbrev raw_bytes : Borsh Bytes
raw_bytes = record {
  serialize = λ x. some x;
  deserialize = λ b. some b;
  deserialize-serialize = λ x b e. sym e;
}

abbrev lookup_map : LookupMap
lookup_map = record { key_prefix = 9 ∷ [] }

abbrev no_entries : Trie
no_entries = λ _. none

no_entries-Holds : LookupLaws.Holds raw_bytes raw_bytes lookup_map no_entries (1 ∷ []) none
no_entries-Holds b e = refl

lookup_insert_lem_example :
    (u : Trie) × (LookupMap.insert raw_bytes raw_bytes lookup_map (1 ∷ []) (2 ∷ []) no_entries
      ≡ done (none, u))
    × LookupLaws.Holds raw_bytes raw_bytes lookup_map u (1 ∷ []) (some (2 ∷ []))
    × ((j : Bytes) (q : Option Bytes)
        → j ≢ (1 ∷ [])
        → LookupLaws.Holds raw_bytes raw_bytes lookup_map no_entries j q
        → LookupLaws.Holds raw_bytes raw_bytes lookup_map u j q)
lookup_insert_lem_example =
    lookup_insert_lem raw_bytes raw_bytes lookup_map (1 ∷ []) none no_entries refl no_entries-Holds
      (2 ∷ []) refl

lookup_remove_lem_example :
    (u : Trie) × (LookupMap.remove raw_bytes raw_bytes lookup_map (1 ∷ []) no_entries
      ≡ done (none, u))
    × LookupLaws.Holds raw_bytes raw_bytes lookup_map u (1 ∷ []) none
    × ((j : Bytes) (q : Option Bytes)
        → j ≢ (1 ∷ [])
        → LookupLaws.Holds raw_bytes raw_bytes lookup_map no_entries j q
        → LookupLaws.Holds raw_bytes raw_bytes lookup_map u j q)
lookup_remove_lem_example =
    lookup_remove_lem raw_bytes raw_bytes lookup_map (1 ∷ []) none no_entries refl no_entries-Holds

-- ===== src/Store/Tests.antt =====
-- The cached map and the vector at concrete inputs (near-sdk/src/store).
use near_runtime_rs.Base.{
  suc, ℕ, zero, suc, ◌<◌, ◌≡◌, ◌≢◌, Option, none, some, List, [], ◌∷◌, done, refl, arith,
  ℕ_discrete, get_elem?, u32_size,
}
use near_runtime_rs.Store.Trie.{Bytes, Trie, Borsh}
use near_runtime_rs.Store.CacheEntry.{CacheEntry, modified}
use near_runtime_rs.Store.IndexMap.{
  Stored, Panic, put_entry, insert_element, swap, flush, replace_at,
}
use near_runtime_rs.Store.IndexMap
use near_runtime_rs.Store.Represents.{Represents, Represents-ext, put_entry-Represents, update}
use near_runtime_rs.Store.Elements.{Returns, replace_at_lem, swap_lem, exchange}
use near_runtime_rs.Store.Flush.{key}
use near_runtime_rs.Store.Reload.{flush_then_reload}
use near_runtime_rs.Store.Vector.{Vector}
use near_runtime_rs.Store.Vector
use near_runtime_rs.Store.VectorList.{IsVector, Gives, push_lem, replace_elem}
use near_runtime_rs.Store.SwapRemove.{swap_remove_elem}
use near_runtime_rs.Store.Bounds.{clear_lem, flush_then_load}

-- One byte to an element.
abbrev byte_read : Bytes → Option ℕ
byte_read (b ∷ []) = some b
byte_read bytes = none

byte_round : (x : ℕ) (b : Bytes) → some (x ∷ []) ≡ some b → byte_read b ≡ some x
byte_round x [] h = cc
byte_round x (y ∷ []) h = cc
byte_round x (y ∷ z ∷ b) h = cc

abbrev byte : Borsh ℕ
byte = record {
  serialize = λ x. some (x ∷ []);
  deserialize = byte_read;
  deserialize-serialize = byte_round;
}

byte_total : (x : ℕ) → (b : Bytes) × (byte.serialize x ≡ some b)
byte_total x = (x ∷ [], refl)

abbrev no_storage : Trie
no_storage k = none

abbrev nothing : Stored ℕ
nothing = record { map = IndexMap.new (118 ∷ []); trie = no_storage }

abbrev fresh : ℕ → CacheEntry ℕ
fresh v = record { value = some v; state = modified }

-- Two elements in the cache, none of them in storage yet.
abbrev two : Stored ℕ
two = record {
  map = record { prefix = 118 ∷ []; cache = (0, fresh 7) ∷ (1, fresh 8) ∷ [] };
  trie = no_storage;
}

nothing-Represents : Represents byte nothing (λ i. none)
nothing-Represents = record { distinct = tt; holds = λ i lt. tt }

two-elements :
    (j : ℕ) → update {T = ℕ} 1 (some 8) (update 0 (some 7) (λ i. none)) j ≡ get_elem? (7 ∷ 8 ∷ []) j
two-elements zero = refl
two-elements (suc zero) = refl
two-elements (suc (suc j)) = ground arith

two-Represents : Represents byte two (get_elem? (7 ∷ 8 ∷ []))
unfolding ℕ_discrete
two-Represents =
    Represents-ext byte two (update {T = ℕ} 1 (some 8) (update 0 (some 7) (λ i. none)))
      (get_elem? (7 ∷ 8 ∷ [])) two-elements
      (put_entry-Represents byte 1 (fresh 8) (put_entry 0 (fresh 7) nothing)
        (update {T = ℕ} 0 (some 7) (λ i. none)) (omega arith) (λ c. cc)
        (put_entry-Represents byte 0 (fresh 7) nothing (λ i. none) (omega arith) (λ c. cc)
          nothing-Represents))

abbrev vector : Vector ℕ
vector = record { len = 2; values = two }

abbrev elements : List ℕ
elements = 7 ∷ 8 ∷ []

vector-IsVector : IsVector byte vector elements
vector-IsVector = record { len = refl; bound = omega arith; elements = two-Represents }

swap_lem_example : Returns byte (swap byte 0 1 two) tt (exchange byte 0 1 (get_elem? elements))
swap_lem_example =
    swap_lem byte 0 1 two (get_elem? elements) (omega arith) (omega arith) two-Represents

replace_at_lem_example :
    Returns byte (replace_at byte 1 (some 9) two) (some 8) (update 1 (some 9) (get_elem? elements))
replace_at_lem_example =
    replace_at_lem byte 1 two (get_elem? elements) (omega arith) two-Represents (some 9)

flush_then_reload_example :
    (s' : Stored ℕ) × (flush byte two ≡ done (tt, s'))
    × Represents byte s' (get_elem? elements)
    × Represents byte
        (record { map = IndexMap.new (118 ∷ []); trie = s'.trie })
        (get_elem? elements)
    × ((k : Bytes)
        → ((j : ℕ) → j < u32_size → k ≢ key byte (118 ∷ []) j)
        → s'.trie k ≡ no_storage k)
flush_then_reload_example =
    flush_then_reload byte byte_total two (get_elem? elements) two-Represents

push_lem_example : Gives byte (Vector.push 9 vector) tt (7 ∷ 8 ∷ 9 ∷ [])
push_lem_example = push_lem byte vector elements vector-IsVector 9 (omega arith)

replace_elem_example : Gives byte (Vector.replace byte 1 9 vector) 8 (7 ∷ 9 ∷ [])
replace_elem_example = replace_elem byte vector elements vector-IsVector 1 9 8 refl

swap_remove_elem_example : Gives byte (Vector.swap_remove byte 0 vector) 7 (8 ∷ [])
swap_remove_elem_example =
    swap_remove_elem byte vector elements vector-IsVector 1 0 7 8 refl refl refl

clear_lem_example : Gives byte (Vector.clear vector) tt []
clear_lem_example = clear_lem byte vector elements vector-IsVector

flush_then_load_example :
    (v' : Vector ℕ) × (Vector.flush byte vector ≡ done (tt, v'))
    × IsVector byte v' elements
    × IsVector byte
        (record {
          len = 2;
          values = record { map = IndexMap.new (118 ∷ []); trie = v'.values.trie };
        })
        elements
flush_then_load_example = flush_then_load byte vector elements vector-IsVector byte_total

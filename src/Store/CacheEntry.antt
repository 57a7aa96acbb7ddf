-- ===== src/Store/CacheEntry.antt =====
-- The entry of the cache (near-sdk/src/utils/cache_entry.rs).
use near_runtime_rs.Base.{Bool, true, false, Option, none, some, ◌||◌, if◌then◌else◌}

pub data EntryState : Type 0 where
  modified cached : EntryState

pub record CacheEntry (T : Type 0) : Type 0 where
  pub value : Option T
  pub state : EntryState

abbrev is_some : {T : Type 0} → Option T → Bool
is_some (some _) = true
is_some none = false

module _ {T : Type 0} where
  unfoldable pub new_cached : Option T → CacheEntry T
  new_cached v = record { value = v; state = cached }

  unfoldable pub new_modified : Option T → CacheEntry T
  new_modified v = record { value = v; state = modified }

  -- `*entry.value_mut() = value`
  unfoldable pub set_value : Option T → CacheEntry T → CacheEntry T
  set_value v e = record { value = v; state = modified }

  -- The entry is marked only if there was a value or there is one now.
  unfoldable pub replace : Option T → CacheEntry T → CacheEntry T × Option T
  replace v e = (
    record { value = v; state = if is_some v || is_some e.value then modified else e.state },
    e.value,
  )

  unfoldable pub replace_state : EntryState → CacheEntry T → CacheEntry T
  replace_state s e = record e { state = s }

  unfoldable pub is_modified : CacheEntry T → Bool
  is_modified e = elim e.state [ modified ↦ true | cached ↦ false ]

-- ===== src/FreeList.antt =====
-- The list of slots that are filled again (near-sdk/src/store/free_list/mod.rs), over vectors that
-- are lists: Store.VectorList shows that the vector of the store is one.
pub mod Defs
pub mod Invariant
pub mod Insert
pub mod Remove
mod Tests

-- ===== src/Store.antt =====
-- The cached collections over the contract's storage (near-sdk/src/store).
pub mod Trie
pub mod CacheEntry
pub mod IndexMap
pub mod LookupMap
pub mod LookupView
pub mod Represents
pub mod Elements
pub mod Flush
pub mod Reload
pub mod Vector
pub mod VectorList
pub mod SwapRemove
pub mod Bounds
mod Tests

-- ===== src/Collections.antt =====
-- The collections without a cache (near-sdk/src/collections).
pub mod Vector
pub mod UnorderedMap
pub mod Holds
pub mod VectorLaws
pub mod LookupMap
pub mod LookupLaws
mod Tests

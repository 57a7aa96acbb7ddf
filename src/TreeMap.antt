-- ===== src/TreeMap.antt =====
-- The map that keeps its keys in a balanced tree (near-sdk/src/store/tree_map/mod.rs).
pub mod Ord
pub mod Tree
pub mod Balance
pub mod Shape
pub mod Slots
pub mod Represents
pub mod Rotation
pub mod Rebalanced
pub mod Enforce
pub mod Insertion
pub mod SortedKeys
pub mod Avl
pub mod Height
pub mod Count
pub mod InsertKeys
pub mod Lookup
pub mod Remove
pub mod Room
pub mod Depth
pub mod Reachable
pub mod Rebuild
pub mod Place
pub mod PlaceKeys
pub mod Rebalance
pub mod Extreme
pub mod Taking
pub mod ByLeft
pub mod ByLeftDeep
pub mod RemoveLeft
pub mod Least
pub mod ByRight
pub mod ByRightDeep
pub mod RemoveRight
pub mod Finding
pub mod RemoveLeaf
pub mod RemoveKeys
pub mod DoRemove
pub mod Map
pub mod MapInsert
pub mod MapRemove
mod Tests

-- ===== src/Lib.antt =====
-- The NEAR SDK for Rust: the token standards of near-contract-standards and the collections of
-- near-sdk, with theorems on what they keep and what they return.
--
-- A contract's state lives in a trie of the host, from bytes to bytes. The collections of near-sdk
-- keep their elements there: those of near-sdk/src/store with a cache that a flush writes, those of
-- near-sdk/src/collections at once. The token standards keep their tables in such collections. A
-- public call reads what the host answers (the caller, the deposit, the gas), changes the tables,
-- and emits events and promises. A transfer call schedules two more calls, of the receiver and then
-- of the contract's own callback, between which other calls may run.
--
-- Base: shared names, tests on numbers, lists, association lists (Base.Dict), and calls that return
--   or panic (Base.Calls). A panic ends the call without a state, since the host undoes its
--   changes.
-- Ft: near-contract-standards/src/fungible_token/core_impl.rs and storage_impl.rs, and
--   near-contract-standards/src/storage_management/mod.rs. Ft.State has FungibleToken and what a
--   call reads and asks of the host, Ft.Core the balances and transfers, Ft.Resolve the callback
--   of ft_transfer_call, Ft.Storage the registration of accounts. Ft.Contract runs sequences of
--   public calls and of callbacks in flight.
-- Nft: near-contract-standards/src/non_fungible_token, that is core/core_impl.rs (Nft.State,
--   Nft.Core, Nft.Mint, Nft.Init and Nft.Resolve), approval/approval_impl.rs (Nft.Approval),
--   enumeration/enumeration_impl.rs (Nft.Views), utils.rs (Nft.Refund), token.rs and metadata.rs.
--   The set of an owner's tokens is the list of its elements in their order (Nft.TokenSet).
-- Store: near-sdk/src/store/index_map.rs (Store.IndexMap), near-sdk/src/store/vec/mod.rs
--   (Store.Vector), near-sdk/src/store/lookup_map/mod.rs (Store.LookupMap) and
--   near-sdk/src/utils/cache_entry.rs (Store.CacheEntry), over Store.Trie, the storage of the
--   host. A cell of the cache that was never read and a missing entry are the same.
-- FreeList: near-sdk/src/store/free_list/mod.rs. Its vector of slots is a list, as Store.VectorList
--   says of the vector below a length of 2^32.
-- TreeMap: near-sdk/src/store/tree_map/mod.rs. TreeMap.Tree has the nodes, in a free list, and the
--   loops that look for a key, TreeMap.Balance heights, rotations and insertion, TreeMap.Remove and
--   TreeMap.DoRemove the removal, TreeMap.Map the map with its values, which are in a
--   store::LookupMap (Store.LookupMap). TreeMap.Ord is the order of the keys. What the nodes stand
--   for is a tree of indices and keys (TreeMap.Shape, TreeMap.Represents). TreeMap.Reachable has the
--   maps that insertions and removals make of a new one.
-- Collections: near-sdk/src/collections/vector.rs (Collections.Vector), lookup_map.rs
--   (Collections.LookupMap) and unordered_map/mod.rs (Collections.UnorderedMap, raw operations).
--
-- Numbers are natural numbers, with the sizes written out: u128 for balances, u64 for lengths in
-- Collections, for storage and for approval ids, u32 for lengths and indices in Store and FreeList.
-- Additions and subtractions that overflow panic, as with the overflow-checks of the contracts'
-- profiles. Account ids and token ids are only compared and stored, so they are numbered; the
-- length of an account id's name is a parameter where the code asks for it.
-- A loop is over a list or counts down, but for the walks down the tree of TreeMap. These run on
-- fuel, the height that is stored at the node where they start, and one more but for an insertion.
-- That is enough in a valid tree; without fuel they panic with a value of their own, out_of_fuel.
--
-- Parameters stand for code outside the repository: borsh is the interface Borsh, with the law that
-- what was written is read back; the key of a value in a LookupMap is a function of its prefix and
-- key, since a hasher may be the host's; serde_json's reading of a receiver's answer is a
-- function; the
-- host's answer for the storage in use is a function of the tables.
--
-- Not modelled: the iterators and drain, and with them the clearing of a TreeMap and nft_tokens,
-- which lists in the order of a tree; the defragmentation of the free list; the entries of the
-- maps; the other maps and sets of near-sdk/src/store and of near-sdk/src/collections; the macros
-- of near-sdk-macros, the calls of the host and its
-- mock, promises other than as values, events' JSON, contract metadata and upgrades.
pub mod Base
pub mod Ft
pub mod Nft
pub mod Store
pub mod Collections
pub mod FreeList
pub mod TreeMap

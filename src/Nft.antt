-- ===== src/Nft.antt =====
-- The non-fungible token (near-contract-standards/src/non_fungible_token).
pub mod State
pub mod TokenSet
pub mod Core
pub mod Refund
pub mod Mint
pub mod Approval
pub mod Resolve
pub mod Views
pub mod Init
pub mod Listed
pub mod Index
pub mod Invariant
pub mod Transfer
pub mod Preserves
pub mod Approved
pub mod Approve
pub mod Return
pub mod Entered
pub mod Minted
pub mod Revoke
mod Tests

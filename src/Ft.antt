-- ===== src/Ft.antt =====
-- The fungible token of the contract standards
-- (near-contract-standards/src/fungible_token/core_impl.rs and storage_impl.rs).
pub mod State
pub mod Core
pub mod Resolve
pub mod Storage
pub mod Invariant
pub mod Transfer
pub mod Refund
pub mod Settlement
pub mod TakeBack
pub mod Registration
pub mod Deposits
pub mod Contract
pub mod Spending
mod Tests

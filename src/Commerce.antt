-- ===== src/Commerce.antt =====
-- The escrow of Commerce/src/lib.rs: its data and its entrypoints.
pub mod Types
pub mod Buyer
pub mod Seller
pub mod Entry
pub mod Lifecycle
pub mod Effect
pub mod Solvency
pub mod History
pub mod Rejections
pub mod Evolution
pub mod Paths
mod Tests

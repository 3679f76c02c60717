-- ===== src/Storage.antt =====
-- packages/core/src/storage: the database and the store over it.
pub mod Schema
pub mod Order
pub mod Transaction
pub mod Tasks
pub mod Companies
pub mod Sessions
pub mod Requests
pub mod Leases
pub mod Journal

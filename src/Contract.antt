-- ===== src/Contract.antt =====
-- packages/runtime-contract: the data that the packages exchange.
pub mod Value
pub mod Task
pub mod Company
pub mod Agent
pub mod Ipc

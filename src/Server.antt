-- ===== src/Server.antt =====
-- packages/core/src/ipc/core-server.ts: the pipe server of the Core.
pub mod Cache
pub mod Outbound
pub mod Events
pub mod Requests
pub mod Fingerprint
pub mod Encode
pub mod State
pub mod Queries
pub mod Methods
pub mod Replies
pub mod Lines
pub mod Consume
pub mod Machine
pub mod Traffic
pub mod Options

-- ===== src/Checkpoint.antt =====
-- packages/core/src/lifecycle/checkpoint-service.ts: the payload of a checkpoint, as it is built when
-- the company pauses and read when it recovers.
pub mod Text
pub mod Payload
pub mod Build
pub mod RoundTrip
pub mod Handoff
pub mod Roster
pub mod Lifecycle

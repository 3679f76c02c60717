-- ===== src/Tests.antt =====
-- Runs of the model at concrete inputs, and the theorems at such inputs.
mod Fixture
mod Storage
mod Server
mod Checkpoint
mod Tasks
mod Company
mod Orchestrator
mod Sessions

-- ===== src/Tests.antt =====
-- Runs of the definitions at concrete inputs, and the theorems applied there.
pub mod Fixtures
pub mod AgentLoop
pub mod Ledger
pub mod TestRunner
pub mod PatchApply
pub mod Transaction
pub mod Workspace
pub mod Descriptors
pub mod Authority
pub mod ArtifactStore
pub mod Executor
pub mod Replay

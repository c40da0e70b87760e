-- ===== src/Replay.antt =====
-- runtime_lab/replay/__init__.py: the read-only replay of a ledger against an expected state and the receipts.
pub mod Input
pub mod Checks
pub mod Engine
pub mod Matched
pub mod Errors
pub mod Evidence
pub mod Laws
pub mod Accepts
pub mod Executor

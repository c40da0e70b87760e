-- ===== src/TestRunner.antt =====
-- The allowlisted test runner (runtime_lab/test_runner).
pub mod Models
pub mod Allowlist
pub mod Policy
pub mod Runner
pub mod Receipts

-- ===== src/PatchApply.antt =====
-- The application of approved patches (runtime_lab/patch_apply).
pub mod Models
pub mod Diff
pub mod Receipts
pub mod Transaction

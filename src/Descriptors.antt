-- ===== src/Descriptors.antt =====
-- runtime_lab/descriptors: the task descriptors, their canonical form and their validation.
pub mod Canonical
pub mod Schema
pub mod Validator

-- ===== src/Executor.antt =====
-- runtime_lab/executor/__init__.py: the one action of the bounded executor, `write_text_artifact`.
pub mod Paths
pub mod Checks
pub mod Run
pub mod Within
pub mod Warrant
pub mod Laws

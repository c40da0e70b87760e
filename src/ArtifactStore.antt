-- ===== src/ArtifactStore.antt =====
-- runtime_lab/artifact_store/__init__.py: requests to store an artifact, checked against a policy, and their
-- receipts. Nothing is written. A request is decoded JSON, so that its content is a text.
pub mod Policy
pub mod Checks
pub mod Store
pub mod Storable
pub mod Laws

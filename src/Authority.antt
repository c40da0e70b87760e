-- ===== src/Authority.antt =====
-- runtime_lab/authority: packets that bind a descriptor to its authority, their issue and their verification.
pub mod Bindings
pub mod Verify
pub mod Packet

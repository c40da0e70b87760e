-- ===== src/AgentLoop.antt =====
-- The supervised agent loop (runtime_lab/agent_loop).
pub mod StateMachine
pub mod ReceiptLedger
pub mod Models
pub mod Authority
pub mod Policy
pub mod Receipts
pub mod Replay
pub mod Supervisor

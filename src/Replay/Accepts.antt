-- ===== src/Replay/Accepts.antt =====
-- When a replay is accepted.

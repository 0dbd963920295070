-- ===== src/Engine.antt =====
-- runtime/engine.
pub mod Service

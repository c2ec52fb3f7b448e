-- ===== src/Pipeline.antt =====
-- The agent's backup pipeline: apps/agent/internal/pipeline.
pub mod Encrypt
pub mod Tail
pub mod HookRing
pub mod Hooks
pub mod Request
pub mod Stages
pub mod Runner

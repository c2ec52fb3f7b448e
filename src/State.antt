-- ===== src/State.antt =====
-- apps/agent/internal/state: the store of state.go over the sealed values of crypto.go.
pub mod Envelope
pub mod Store

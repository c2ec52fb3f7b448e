-- ===== src/Wss.antt =====
-- apps/agent/internal/wss: the connection to the control plane.
pub mod Backoff
pub mod Messages
pub mod Client
pub mod Loops
pub mod Url

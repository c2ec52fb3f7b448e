-- ===== src/Discovery.antt =====
-- apps/agent/internal/discovery: which containers of the Docker daemon run a database.
pub mod Images
pub mod Ports
pub mod Env
pub mod Scan

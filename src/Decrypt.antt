-- ===== src/Decrypt.antt =====
-- The decrypt tool: apps/backupy-decrypt.
pub mod Stream
pub mod Token
pub mod Run

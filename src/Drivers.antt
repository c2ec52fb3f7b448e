-- ===== src/Drivers.antt =====
-- The drivers that dump a database with its own command line tool:
-- apps/agent/internal/pipeline/{pg_dump,mysqldump,mongodump,redis,sqlite}.go.
pub mod Command
pub mod Decimals
pub mod PgDump
pub mod Mysqldump
pub mod Mongodump
pub mod Redis
pub mod Sqlite
pub mod Registry

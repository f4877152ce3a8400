-- ===== src/Cli.antt =====
-- src/cli.ts: what the commands compute between reading and writing a session.
pub mod Refresh
pub mod Watch
pub mod Context
pub mod Commands
pub mod Sessions

-- ===== src/Console.antt =====
-- The remote console: components/remote_console/remote_console.c.
pub mod Output
pub mod Line
pub mod Auth
pub mod Session
pub mod Server

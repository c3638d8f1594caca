-- ===== src/Web.antt =====
-- Who may use the web pages: components/http_server/http_server.c.
pub mod Cookie
pub mod Csrf
pub mod Session
mod Examples

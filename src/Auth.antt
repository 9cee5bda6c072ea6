-- ===== src/Auth.antt =====
-- internal/auth: the sessions of browsers.
pub mod Sessions

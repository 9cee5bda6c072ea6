-- ===== src/Http.antt =====
-- internal/httpmw, internal/api and the routes of internal/app: who reaches which handler.
pub mod Keys
pub mod Guards
pub mod Login

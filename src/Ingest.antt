-- ===== src/Ingest.antt =====
-- internal/ingest: what the gateway reads of an upstream model, and the bounds it puts on it.
pub mod Quota
pub mod Header
pub mod Vram
pub mod Jobs
pub mod Reference

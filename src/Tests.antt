-- ===== src/Tests.antt =====
-- Witnesses and tests: each theorem at an input that meets its hypotheses, with the interfaces
-- filled by concrete functions.
mod Memory
mod Scheduler
mod LocalCache
mod Sweeps
mod Lora
mod Ingest
mod Queue
mod Ratelimit
mod Policy
mod Auth
mod Resilience
mod Inference
mod Migrations
mod Chat
mod ObjectCache
mod Deployments
mod Reference

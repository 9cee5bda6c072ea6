-- ===== src/Scheduler.antt =====
-- internal/scheduler: placement, the life of a deployment, and exclusive use of devices.
pub mod State
pub mod StatusStream
pub mod GpuBinding
pub mod Failures
pub mod Retry
pub mod BinPacking
pub mod Idle
pub mod Ceiling
pub mod Sweeps
pub mod Degraded

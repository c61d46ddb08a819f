-- ===== src/Runtime.antt =====
-- runtime/core and runtime/pro.
pub mod StreamBuffer
pub mod AlertManager
pub mod CapabilitySeam
pub mod Telemetry
pub mod Residency
pub mod Scheduler
pub mod Authentication

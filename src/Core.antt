-- ===== src/Core.antt =====
-- app/core: the cross-cutting modules of the service.
pub mod Errors
pub mod Retry
pub mod Config
pub mod Metrics
pub mod Logging

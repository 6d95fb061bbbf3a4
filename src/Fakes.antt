-- ===== src/Fakes.antt =====
-- Small servers and libraries in memory, which show that the documented behaviour that the theorems
-- assume can hold, and on which the code runs.
pub mod Group
pub mod Queue
pub mod Web
pub mod Database
pub mod Json
pub mod Site
pub mod Contract
pub mod Query
pub mod RateService

-- ===== src/Services.antt =====
-- app/services: the rate client and the processing of one event; the services that they call.
pub mod Pipeline
pub mod External
pub mod World
pub mod RateClient
pub mod Processor

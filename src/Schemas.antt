-- ===== src/Schemas.antt =====
-- app/schemas: the wire contract and the queue envelope.
pub mod IntText
pub mod Datetime
pub mod Events
pub mod Envelope
pub mod Responses

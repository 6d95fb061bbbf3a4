-- ===== src/Db.antt =====
-- app/db: the table, the classification of database errors, and the repository.
pub mod Errors
pub mod Retryable
pub mod Classification
pub mod Models
pub mod Session
pub mod Repository
pub mod Queries
pub mod Engine

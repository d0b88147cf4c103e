-- ===== src/Services.antt =====
-- app/services: what moves data between the normalizer, the exchanges' history and the database.
pub mod Rates
pub mod Backfill
pub mod Persist
pub mod Pipeline

-- ===== src/Db.antt =====
-- packages/db/src/index.ts: what stands between the services and the database.
pub mod Errors
pub mod Breaker
pub mod Retry
pub mod Protection
pub mod Invariant
pub mod Recovery
mod Tests

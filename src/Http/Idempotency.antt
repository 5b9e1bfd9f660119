-- ===== src/Http/Idempotency.antt =====
-- apps/http-backend/src/middlewares/idempotency.middleware.ts.
pub mod Store
pub mod Sorting
pub mod Eviction
pub mod Pruning
pub mod Fingerprint
pub mod Middleware
pub mod Invariant
pub mod Progress
pub mod Exclusion
pub mod Reached
pub mod Replay

-- ===== src/Http.antt =====
-- apps/http-backend/src/middlewares: what stands before the handlers of the HTTP service.
pub mod Request
pub mod RateLimit
pub mod Idempotency
mod Tests

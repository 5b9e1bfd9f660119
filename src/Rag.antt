-- ===== src/Rag.antt =====
-- Reference material for the AI of a canvas: apps/http-backend/src/utils/rag.ts.
pub mod Text
pub mod Chunking
pub mod Windows
pub mod Cover
pub mod Retry
pub mod Attempts
pub mod Cache
pub mod Tests

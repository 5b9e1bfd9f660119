-- ===== src/Rooms.antt =====
-- apps/http-backend/src/controllers/room.controller.ts over the tables of
-- packages/db/prisma/schema.prisma.
pub mod Reply
pub mod Table
pub mod Database
pub mod Access
pub mod Requests
pub mod Naming
pub mod Invariant
pub mod Keys
pub mod Grants
pub mod Slugs
pub mod Founding
pub mod Sound
pub mod Asking
pub mod Deciding
pub mod Series
pub mod Admission
pub mod Safety
pub mod Rights
pub mod Race
pub mod Shapes
pub mod Paging
pub mod Ties
pub mod Content
pub mod Deck
pub mod AiJobs
pub mod Jobs
pub mod Tests

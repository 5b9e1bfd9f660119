-- ===== src/Ws/Handler.antt =====
-- apps/ws-backend/src/ws/messageHandler.ts: what a node does with a message.
pub mod Presence
pub mod Snapshot
pub mod Access
pub mod Cache
pub mod Chat
pub mod Dispatch
pub mod Privacy

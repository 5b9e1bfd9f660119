-- ===== src/Ws.antt =====
-- apps/ws-backend: the collaboration server, one node of it.
pub mod Protocol
pub mod Connections
pub mod Redis
pub mod Persist
pub mod History
pub mod Node
pub mod Rates
pub mod Roles
pub mod Env
pub mod Handler
pub mod CrossNode
mod Tests

-- ===== src/Queue.antt =====
-- packages/queue-sync/src/index.ts: the consumers of the durable queue.
pub mod Consumer
pub mod Routing
pub mod Subscription
pub mod PersistJobs
pub mod Newest

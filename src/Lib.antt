-- ===== src/Lib.antt =====
-- A model of the parts of Canvassync that keep a shared drawing consistent: the merge of canvas
-- snapshots, the canvas that makes them, the node of the WebSocket server that receives, commits and
-- passes them on, and what the nodes share; with them, what protects the HTTP service and the database.
--
-- The parts, and how they interact. A client (packages/common/src/canvas-crdt.ts,
-- reconcileLocalCanvasCrdtSnapshot) stamps what it changed with its clock and sends all its shapes. A
-- node (apps/ws-backend/src/ws/messageHandler.ts) merges them into the room's state
-- (mergeCanvasCrdtSnapshot), commits the result in Redis (packages/redis-sync/src/index.ts,
-- commitRoomSnapshot), and on success hands it to the database writer (apps/ws-backend/src/ws/roomSync.ts),
-- caches it, acknowledges it and broadcasts it (connectionState.ts). Other nodes take it in from Redis
-- or the durable queue (apps/ws-backend/src/index.ts, applyCrossNodeRoomEvent).
--
-- The files:
--   Prelude and its children: shared library names, Boolean tests, equality as an instance argument,
--     lists and integers over the native numbers.
--   JsMap: a JavaScript Map as a list of pairs in insertion order; Laws about get, set, delete and
--     size; Nested for a Map of Maps whose empty inner Maps are deleted.
--   JsValue, Collation: the values a shape holds, and String.prototype.localeCompare as a record of
--     what is relied on (a total preorder); the order by UTF-16 units is an instance.
--   Crdt: canvas-crdt.ts. Order: the order of stamps. Cell: the register of one id, the abstract view
--     of a replica. Valid, Load, Refinement: the maps of a merge, next to the register of an id.
--     Convergence, Replica, Monotone: series of snapshots. Reconcile, Roundtrip, Edit: a client's edit on its way through the server.
--   Ws.Protocol: packages/common/src/ws-protocol.ts, the messages that the schemas let through.
--   Ws.Connections: connectionState.ts; Counting says what the participant counts should be.
--   Ws.Redis: redis-sync; Commit is about the runs of commitRoomSnapshot.
--   Ws.Persist: the database writer of roomSync.ts as steps; Delivery is about their interleavings.
--   Ws.History: the snapshots that roomSync.ts keeps of a room, youngest first; Pruned, Invariant and
--     Recorded are about the deletion of old ones and about series of writes and timers.
--   Ws.Node: a node's state, roles, rate windows and room cache. Rates, Roles: the rate windows, and
--     the role that a decision rests on.
--   Ws.Env: what a handler finds outside the node.
--   Ws.Handler: messageHandler.ts, one file per message and Dispatch for handleSocketMessage; Access,
--     Cache and Privacy are about who may do what, the cache, and who receives what.
--   Ws.CrossNode: apps/ws-backend/src/index.ts; Dedup is about repeated and late events.
--   Engine: packages/canvas-engine/src/types.ts and state.ts, the shapes that a client draws with
--     their normalization, and its undo and redo. Number is the arithmetic of the language. Parents
--     and History are about these two. Geometry, Handles and Resize: geometry.ts; Selection:
--     interaction/selection.ts; Translate and Arrange:
--     diagram/arrange.ts and parts of diagram/tidy.ts. Bindings and
--     Store: packages/canvas-engine/src/store.ts, with dispatch;
--     Targets, Bound and Ids are about what it leaves. The engine's Shape has fields for what the engine reads; the
--     Shape of Crdt is the same object as the merge sees it.
--   Db: packages/db/src/index.ts, the protection of database calls. Errors, Retry, Breaker, Protection
--     follow the source; Invariant and Recovery are about the breaker. An event of the breaker is
--     what the service does without an await, and a call that is refused does not run.
--   Http.Request, Http.RateLimit: apps/http-backend/src/middlewares/rate-limit.middleware.ts, with
--     what both middlewares read of a request.
--   Http.Idempotency: idempotency.middleware.ts. Store, Fingerprint and Middleware follow the source;
--     Sorting, Eviction and Pruning are about pruneExpiredEntries; Invariant, Progress, Exclusion and
--     Reached about series of events; Replay about a request after another one.
--   Queue: packages/queue-sync/src/index.ts. Consumer: a message from its delivery to its answer, with
--     others in between; Routing, Subscription: partitions, and the connection of a subscription.
--     PersistJobs: the consumer with the handler of persist jobs in apps/ws-backend/src/index.ts;
--     Newest: what comes after the newest job of a room.
--   Rooms: apps/http-backend/src/controllers/room.controller.ts over the tables of
--     packages/db/prisma/schema.prisma. Reply: how a handler ends. Table, Database: rows in lists, with
--     the queries that the controller makes. Access, Naming, Requests: the handlers, with their
--     checks in the order of the source. Invariant, Keys, Slugs, Grants, Founding, Sound, Asking, Deciding:
--     what each keeps; Series, Admission, Safety, Rights, Race: series of requests, rights, and two
--     decisions at once. Shapes: getShapes and the loop getShapesChunked of
--     apps/web/app/canvas/[roomId]/page.tsx; Paging and Ties are about their pages. Content:
--     replaceShapes and the slides, without the ids of the rows; Deck is about a written deck. AiJobs:
--     the entries of the AI worker's jobs in Redis; Jobs is about series of them.
--   Rag: apps/http-backend/src/utils/rag.ts. Text: texts as UTF-16 units; Chunking with Windows and
--     Cover: chunkText; Retry, Attempts: the calls of the models; Cache: the cache of query vectors.
--   Crdt.Tests, Ws.Tests, Engine.Tests, Db.Tests, Http.Tests, Rooms.Tests, Rag.Tests: the theorems at concrete inputs.
--
-- Correspondence: a function of the source keeps its name in snake case, a field likewise; a handler
-- that may throw returns a Bool, false for a throw, with the node. Sockets are numbers, the identity
-- of the objects; the socket objects are a function from them. Time, the database's answers and the
-- other nodes' moves are arguments.
--
-- Bounds and fuel: commitRoomSnapshot tries three times, and its model recurses on the attempts left,
-- three at the start. runWithDbRetry recurses on the calls left, as many as the permitted attempts
-- and at least one, which is enough. The loops of
-- chunkText and getShapesChunked take fuel: more than the length of the text is enough, and two rounds
-- where all shapes have one createdAt. Nothing else needs fuel. Clocks and versions are natural numbers.
--
-- Not modelled: the web client but for one loop, the rest of the canvas engine, the other controllers
-- of the HTTP server and of the room controller the history endpoints, the chat and the viewport query;
-- the database itself, whose transactions run at once here and whose failures count where a handler
-- catches them; the scores of rag.ts, which are floating-point numbers; publishing to the durable
-- queue, the AI worker, metrics and logs; JSON text and the zod schemas, whose results are arguments;
-- the awaits inside one handler of the WebSocket server, between which the code may serve other
-- sockets, but for those of initializeRoomSync and of a commit.
pub mod Prelude
pub mod JsMap
pub mod Collation
pub mod JsValue
pub mod Crdt
pub mod Ws
pub mod Db
pub mod Http
pub mod Queue
pub mod Engine
pub mod Rooms
pub mod Rag

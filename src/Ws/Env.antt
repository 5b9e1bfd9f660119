-- ===== src/Ws/Env.antt =====
-- What a handler of apps/ws-backend/src/ws/messageHandler.ts finds outside the node while it works
-- on one message: the time, the database's answers, the other nodes, the settings. The
-- node's other sockets come in at the awaits of initializeRoomSync and of a commit, not at others.
use canvassync.Prelude.{ℕ, String, Bool, Option, List}
use canvassync.Collation.{Collator}
use canvassync.Crdt.{Shape}
use canvassync.Ws.Protocol.{ChatParticipant}
use canvassync.Ws.Redis.{Redis}
use canvassync.Ws.Node.{Node, Await, RoomRow}

pub data ChatType : Type 0 where
  group_chat direct_chat comment_chat : ChatType

-- The `data` of `prismaClient.chat.create`.
pub record ChatData : Type 0 where
  pub room_id : ℕ
  pub message : String
  pub message_type : ChatType
  pub user_id : String
  pub recipient_id : Option String
  pub shape_id : Option String

-- The row that comes back, with the users that it includes.
pub record ChatRow : Type 0 where
  pub id : ℕ
  pub room_id : ℕ
  pub message : String
  pub message_type : ChatType
  pub shape_id : Option String
  pub created_at : String
  pub user : ChatParticipant
  pub recipient : Option ChatParticipant

-- P2021 and P2022 say that the schema is not up to date; any other error is thrown on.
pub data ChatOutcome : Type 0 where
  created : ChatRow → ChatOutcome
  not_ready failed : ChatOutcome

pub record Env : Type 0 where
  pub now : ℕ
  pub find_room : ℕ → Option RoomRow
  -- The shapes of the room that the database has; none if a call throws.
  pub stored : ℕ → Option (List Shape)
  pub create_chat : ChatData → ChatOutcome
  pub interfere : ℕ → Redis → Redis × Bool
  -- What the node's other sockets and the other nodes do while the handler waits.
  pub meanwhile : Await → Node → Node
  pub queued : Bool
  pub node_id : String
  pub action_id : String
  pub max_message_bytes : ℕ
  pub snapshot_limit : ℕ
  pub snapshot_window_ms : ℕ
  pub ephemeral_limit : ℕ
  pub collator : Collator
  -- `User ${userId.slice(0, 6)}`
  pub default_name : String → String
  -- `Version mismatch: server has ${version}`
  pub version_mismatch : ℕ → String

-- ===== src/Ws/Protocol.antt =====
-- packages/common/src/ws-protocol.ts: what a client and the server say to one another. The zod
-- schemas are a third party's code: a message here is one that they have let through.
use canvassync.Prelude.{ℕ, String, Bool, Option, List}
use canvassync.JsValue.{JsNumber}
use canvassync.Crdt.{CanvasCrdtMetadata, Shape}

pub data RoomRole : Type 0 where
  owner editor viewer : RoomRole

pub record PresenceCursor : Type 0 where
  pub x : JsNumber
  pub y : JsNumber

pub record RoomPresence : Type 0 where
  pub user_id : String
  pub user_name : String
  pub cursor : Option PresenceCursor
  pub selected_ids : List String
  pub tool : Option String

pub record RoomPresenceState : Type 0 where
  pub room_id : ℕ
  pub connected_users_count : ℕ
  pub presences : List RoomPresence

pub data EphemeralEvent : Type 0 where
  cursor : JsNumber → JsNumber → EphemeralEvent
  cursor_chat : Option String → EphemeralEvent
  reaction : String → JsNumber → JsNumber → EphemeralEvent
  timer : (remaining_ms : Option ℕ) (label : Option String) → EphemeralEvent
  voice : Bool → EphemeralEvent
  typing : Bool → EphemeralEvent
  rtc : (to payload : String) → EphemeralEvent
  viewport : (x y scale : JsNumber) (present : Option Bool) → EphemeralEvent

pub data ChatKind : Type 0 where
  group direct comment : ChatKind

pub record ChatParticipant : Type 0 where
  pub id : String
  pub name : String
  pub handle : Option String
  pub photo : Option String

pub record PersistedChatMessage : Type 0 where
  pub id : ℕ
  pub room_id : ℕ
  pub kind : ChatKind
  pub body : String
  pub shape_id : Option String
  pub created_at : String
  pub sender : ChatParticipant
  pub recipient : Option ChatParticipant

pub record SnapshotMessage : Type 0 where
  pub room_id : ℕ
  pub version : ℕ
  pub shapes : List Shape
  pub deleted_shape_ids : Option (List String)
  pub deletion_meta : Option CanvasCrdtMetadata

pub record SnapshotBroadcast : Type 0 where
  pub room_id : ℕ
  pub version : ℕ
  pub shapes : List Shape
  pub sender_id : String
  pub action_id : String
  pub deleted_shape_ids : Option (List String)
  pub deletion_meta : Option CanvasCrdtMetadata

pub data ClientMessage : Type 0 where
  join_room : (room_id : ℕ) → ClientMessage
  canvas_snapshot : SnapshotMessage → ClientMessage
  update_presence :
      (room_id : ℕ) (cursor : Option PresenceCursor) (selected_ids : List String)
      (tool : Option String)
      → ClientMessage
  ephemeral : (room_id : ℕ) (event : EphemeralEvent) → ClientMessage
  send_chat_message :
      (room_id : ℕ) (kind : ChatKind) (body : String) (recipient_user_id shape_id : Option String)
      → ClientMessage

pub record RoomJoined : Type 0 where
  pub room_id : ℕ
  pub role : Option RoomRole
  pub version : ℕ
  pub shapes : List Shape
  pub user_id : String
  pub connected_users_count : ℕ
  pub presences : List RoomPresence

pub data ServerMessage : Type 0 where
  room_joined : RoomJoined → ServerMessage
  canvas_snapshot_broadcast : SnapshotBroadcast → ServerMessage
  canvas_snapshot_ack : (room_id version : ℕ) → ServerMessage
  chat_message_created : PersistedChatMessage → ServerMessage
  room_presence_state : RoomPresenceState → ServerMessage
  ephemeral_broadcast :
      (room_id : ℕ) (sender_id sender_name : String) (event : EphemeralEvent) → ServerMessage
  sync_error : (reason : String) → ServerMessage
  pong : ServerMessage

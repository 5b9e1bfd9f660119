-- ===== src/Ws/Node.antt =====
-- One node of the server: the connections, the cached rooms, the rate windows, the database writer
-- and the store that the nodes share, as the handlers of its messages see them.
-- apps/ws-backend/src/ws/roomSync.ts (the cache) and messageHandler.ts (rates and roles).
use canvassync.Prelude.{
  ℕ, ◌+◌, String, Bool, true, false, ◌||◌, Option, none, some, List, [], ◌∷◌, ◌++◌, leb, ltb,
  nat_beq, if◌then◌else◌, ◌==◌, string_key, nat_key,
}
use canvassync.JsMap
use canvassync.JsMap.{JsMap}
use canvassync.Crdt.{CanvasCrdtMetadata, Shape}
use canvassync.Ws.Protocol.{
  RoomRole, owner, editor, ServerMessage, sync_error, EphemeralEvent, SnapshotBroadcast, ChatKind,
  PersistedChatMessage,
}
use canvassync.Ws.Connections.{Socket, Hub, put_socket}
use canvassync.Ws.Redis.{
  Redis, RoomSyncState, get_room_version, get_room_snapshot, set_room_snapshot,
}
use canvassync.Ws.Persist.{Persist, update}

pub record RateWindow : Type 0 where
  pub window_start_ms : ℕ
  pub count : ℕ

-- What goes to other nodes and queues, in order.
pub data Outgoing : Type 0 where
  ephemeral_event : (room : ℕ) (sender_id sender_name : String) (event : EphemeralEvent) → Outgoing
  chat_event :
      (room : ℕ) (kind : ChatKind) (recipient_ids : Option (List String))
      (message : PersistedChatMessage)
      → Outgoing
  durable_room_event : (event : SnapshotBroadcast) → Outgoing

pub record Node : Type 0 where
  pub hub : Hub
  pub room_sync_state : JsMap ℕ RoomSyncState
  pub room_crdt_tombstones : JsMap ℕ (JsMap String CanvasCrdtMetadata)
  pub snapshot_windows : ℕ → Option RateWindow
  pub ephemeral_windows : ℕ → Option RateWindow
  pub redis : Redis
  pub persist : Persist
  pub outgoing : List Outgoing
  pub closed : List ℕ

-- ws.send(JSON.stringify(message))
unfoldable pub send : ℕ → ServerMessage → Node → Node
send ws message n = record n { hub = record n.hub { sent = n.hub.sent ++ (ws, message) ∷ [] } }

abbrev pub send_error : ℕ → String → Node → Node
send_error ws reason = send ws (sync_error reason)

abbrev pub with_hub : (Hub → Hub) → Node → Node
with_hub f n = record n { hub = f n.hub }

-- isSnapshotRateLimited and isEphemeralRateLimited, with their counts and windows.
unfoldable pub step_window : (now limit window_ms : ℕ) → Option RateWindow → Bool × RateWindow
step_window now limit window_ms none = (false, record { window_start_ms = now; count = 1 })
step_window now limit window_ms (some w) =
    if leb (w.window_start_ms + window_ms) now
    then (false, record { window_start_ms = now; count = 1 })
    else (ltb limit (w.count + 1), record w { count = w.count + 1 })

unfoldable pub is_snapshot_rate_limited : (now limit window_ms : ℕ) → ℕ → Node → Bool × Node
unfolding step_window
is_snapshot_rate_limited now limit window_ms ws n =
    let (limited, w) = step_window now limit window_ms (n.snapshot_windows ws) in
    (limited, record n { snapshot_windows = update n.snapshot_windows ws (some w) })

unfoldable pub is_ephemeral_rate_limited : (now limit : ℕ) → ℕ → Node → Bool × Node
unfolding step_window
is_ephemeral_rate_limited now limit ws n =
    let (limited, w) = step_window now limit 1000 (n.ephemeral_windows ws) in
    (limited, record n { ephemeral_windows = update n.ephemeral_windows ws (some w) })

-- A room as the database knows it: its admin and the role of a member.
pub record RoomRow : Type 0 where
  pub admin_id : String
  pub member_role : String → Option RoomRole

unfoldable pub get_room_role : (find_room : ℕ → Option RoomRow) → ℕ → String → Option RoomRole
get_room_role find_room room user = elim (find_room room) [
  | none ↦ none
  | some row ↦ if row.admin_id == user then some owner else row.member_role user
]

unfoldable pub has_room_access : (find_room : ℕ → Option RoomRow) → ℕ → String → Bool
unfolding get_room_role
has_room_access find_room room user = elim (get_room_role find_room room user) [
  | none ↦ false
  | some role ↦ true
]

abbrev pub can_edit : Option RoomRole → Bool
can_edit (some owner) = true
can_edit (some editor) = true
can_edit _ = false

-- `!ws.role || !ws.roleCheckedAtMs || now - ws.roleCheckedAtMs > ROLE_RECHECK_MS`
unfoldable pub is_stale : (now : ℕ) → Socket → Bool
is_stale now s = elim s.role [
  | none ↦ true
  | some role ↦ elim s.role_checked_at_ms [
    | none ↦ true
    | some at ↦ nat_beq at 0 || ltb (at + 10000) now
  ]
]

unfoldable pub can_edit_room :
    (now : ℕ) (find_room : ℕ → Option RoomRow) → ℕ → ℕ → String → Hub → Bool × Hub
unfolding is_stale get_room_role
can_edit_room now find_room ws room user h =
    if is_stale now (h.sockets ws)
    then (
      can_edit (get_room_role find_room room user),
      record h {
        sockets = put_socket h.sockets ws (record (h.sockets ws) {
          role = get_room_role find_room room user;
          role_checked_at_ms = some now;
        });
      },
    )
    else (can_edit (h.sockets ws).role, h)

unfoldable pub reject_forbidden : ℕ → Node → Node
unfolding send
reject_forbidden ws n =
    let n' = send_error ws "Forbidden" n in record n' { closed = n'.closed ++ ws ∷ [] }

unfoldable pub cache_room_sync_state : RoomSyncState → Node → Node
cache_room_sync_state state n = record n {
  room_sync_state = JsMap.set n.room_sync_state state.room_id state;
}

-- Where a handler waits: for the second GET of getRoomSnapshot, for its answer, for the rows of the
-- database, for setRoomSnapshot, and for the answer of a commit's EXEC.
pub data Await : Type 0 where
  second_get snapshot_read rows_read snapshot_stored committed : Await

-- initializeRoomSync. `meanwhile` is what the node's other sockets and the other nodes do while it
-- waits; `stored` is what the database returns, none if a call throws.
unfoldable pub initialize_room_sync :
    (stored : Option (List Shape)) (meanwhile : Await → Node → Node)
    → ℕ
    → Node
    → Option RoomSyncState × Node
unfolding cache_room_sync_state
initialize_room_sync stored meanwhile room n =
    let n1 = meanwhile second_get n in
    let n2 = meanwhile snapshot_read n1 in
    let n3 = meanwhile rows_read n2 in
    elim (get_room_snapshot room n.redis n1.redis) [
      | some state ↦ (some state, cache_room_sync_state state n2)
      | none ↦ elim stored [
        | none ↦ (none, n3)
        | some shapes ↦
            let state : RoomSyncState = record {
              room_id = room;
              version = get_room_version room n2.redis;
              shapes = shapes;
            } in
            let n' = cache_room_sync_state state n3 in
            (
              some state,
              meanwhile snapshot_stored
                  (record n' { redis = set_room_snapshot room shapes state.version n'.redis }),
            )
      ]
    ]

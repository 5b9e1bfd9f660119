-- ===== src/Ws/CrossNode.antt =====
-- apps/ws-backend/src/index.ts: room events from the other nodes, persist jobs from the queue, the
-- delay of a retry, and what a closed connection leaves.
pub mod Dedup
use canvassync.Prelude.{
  ℕ, zero, ◌+◌, ◌-◌, ◌*◌, ◌^◌, max, min, String, Bool, true, false, not, Option, none, some, List,
  [], ◌∷◌, ◌++◌, any, select, leb, ltb, nat_beq, if◌then◌else◌, ◌==◌, string_key, nat_key, foldl,
}
use canvassync.JsMap
use canvassync.JsMap.{JsMap}
use canvassync.JsMap.Nested.{inner}
use canvassync.Crdt.{CanvasCrdtMetadata, Shape}
use canvassync.Ws.Protocol.{
  SnapshotBroadcast, ServerMessage, canvas_snapshot_broadcast, ephemeral_broadcast, voice,
}
use canvassync.Ws.Connections.{
  Hub, truthy, broadcast_to_room_all, leave_active_room, remove_user_socket, remove_room_presence,
  broadcast_room_presence_state, get_voice_participants, set_voice_participant,
}
use canvassync.Ws.Redis.{RoomSyncState, RedisRoomEvent}
use canvassync.Ws.Persist.{Persist, persist_shapes, update}
use canvassync.Ws.Node.{Node, ephemeral_event, with_hub, cache_room_sync_state}
use canvassync.Ws.Env.{Env}
use canvassync.Ws.Handler.Presence.{name_of, truthy_room}

-- What this file of the source keeps beside the node.
pub record Remote : Type 0 where
  pub node : Node
  pub seen_action_ids : JsMap String ℕ
  pub latest_persisted_version : ℕ → ℕ

unfoldable pub next_retry_delay_ms : (initial_ms max_ms attempt : ℕ) → ℕ
next_retry_delay_ms initial_ms max_ms attempt = min max_ms (initial_ms * 2 ^ (max 1 attempt - 1))

-- hasSeenAction: an id that is older than the time to live is forgotten. `!seenAt` is true of 0.
unfoldable pub has_seen_action : (now : ℕ) → String → JsMap String ℕ → Bool × JsMap String ℕ
has_seen_action now id seen = elim (JsMap.get seen id) [
  | none ↦ (false, seen)
  | some at ↦
      if nat_beq at 0
      then (false, seen)
      else if ltb (at + 120000) now
      then (false, JsMap.delete seen id)
      else (true, seen)
]

unfoldable pub remember_action : (now : ℕ) → String → JsMap String ℕ → JsMap String ℕ
remember_action now id seen = JsMap.set seen id now

-- The callback of the interval.
unfoldable pub sweep_actions : (now : ℕ) → JsMap String ℕ → JsMap String ℕ
sweep_actions now seen =
    foldl (λ m (e : String × ℕ). if ltb (e.1 + 120000) now then JsMap.delete m e.0 else m) seen seen

-- The tombstones of an event: none where it carries no metadata or no ids.
abbrev pub buried :
    Option CanvasCrdtMetadata
    → Option (List String)
    → Option (JsMap String CanvasCrdtMetadata)
    → Option (JsMap String CanvasCrdtMetadata)
buried (some stamp) (some ids) none = some (foldl (λ m id. JsMap.set m id stamp) JsMap.empty ids)
buried (some stamp) (some ids) (some old) = some (foldl (λ m id. JsMap.set m id stamp) old ids)
buried _ _ _ = none

unfoldable pub bury : RedisRoomEvent → Node → Node
bury event n =
    elim (buried event.deletion_meta event.deleted_shape_ids
      (JsMap.get n.room_crdt_tombstones event.room_id)) [
        | none ↦ n
        | some tombstones ↦ record n {
          room_crdt_tombstones = JsMap.set n.room_crdt_tombstones event.room_id tombstones;
        }
      ]

abbrev pub or_unknown : Option String → String
or_unknown none = "unknown"
or_unknown (some sender) = sender

abbrev pub message_of : RedisRoomEvent → ServerMessage
message_of event = canvas_snapshot_broadcast (record {
  room_id = event.room_id;
  version = event.version;
  shapes = event.shapes;
  sender_id = or_unknown event.sender_id;
  action_id = event.action_id;
  deleted_shape_ids = event.deleted_shape_ids;
  deletion_meta = event.deletion_meta;
})

-- `cachedState && event.version <= cachedState.version`
unfoldable pub is_regression : ℕ → Option RoomSyncState → Bool
is_regression version none = false
is_regression version (some s) = leb version s.version

-- The rest of applyCrossNodeRoomEvent, past its early returns.
unfoldable pub apply_snapshot : RedisRoomEvent → Node → Node
unfolding cache_room_sync_state bury broadcast_to_room_all
apply_snapshot event n =
    let n1 = bury event (
      cache_room_sync_state
        (record { room_id = event.room_id; version = event.version; shapes = event.shapes }) n) in
    if nat_beq (JsMap.size (inner (JsMap.get n1.hub.active_rooms event.room_id))) 0
    then n1
    else with_hub (broadcast_to_room_all event.room_id (message_of event)) n1

unfoldable pub apply_cross_node_room_event :
    (node_id : String) (now : ℕ) → RedisRoomEvent → Remote → Remote
unfolding has_seen_action remember_action is_regression apply_snapshot
apply_cross_node_room_event node_id now event r =
    let (seen, ids) = has_seen_action now event.action_id r.seen_action_ids in
    let ids' = remember_action now event.action_id ids in
    if event.origin_node_id == node_id
    then r
    else if seen
    then record r { seen_action_ids = ids }
    else if is_regression event.version (JsMap.get r.node.room_sync_state event.room_id)
    then record r { seen_action_ids = ids' }
    else record r { seen_action_ids = ids'; node = apply_snapshot event r.node }

-- The end of the `close` handler: the user has left the room with the last socket.
unfoldable pub leave_voice : Env → ℕ → ℕ → String → Node → Node
unfolding get_voice_participants set_voice_participant broadcast_to_room_all
leave_voice env ws room user n =
    let name = name_of env (n.hub.sockets ws) user in
    if any (λ (p : String × String). p.0 == user) (get_voice_participants room n.hub)
    then record n {
      hub =
          broadcast_to_room_all room (ephemeral_broadcast room user name (voice false))
            (set_voice_participant room user name false n.hub);
      outgoing = n.outgoing ++ ephemeral_event room user name (voice false) ∷ [];
    }
    else n

-- The `close` handler of a connection.
unfoldable pub on_close : Env → ℕ → Node → Node
unfolding remove_user_socket leave_active_room remove_room_presence broadcast_room_presence_state
    leave_voice
on_close env ws n =
    let n0 = with_hub (remove_user_socket ws) n in
    elim (truthy_room (n0.hub.sockets ws).current_room_id) [
      | none ↦ n0
      | some room ↦
          let (left, h) = leave_active_room room ws n0.hub in
          let n1 : Node = record n0 { hub = h } in
          elim (truthy (h.sockets ws).user_id) [
            | none ↦ n1
            | some user ↦
                if left
                then leave_voice env ws room user (
                    with_hub (broadcast_room_presence_state room)
                      (with_hub (remove_room_presence room user) n1))
                else n1
          ]
    ]

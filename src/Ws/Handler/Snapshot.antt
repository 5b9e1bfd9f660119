-- ===== src/Ws/Handler/Snapshot.antt =====
-- messageHandler.ts: canvas_snapshot.
use canvassync.Prelude.{
  ℕ, String, Bool, true, false, not, Option, none, some, List, [], ◌∷◌, ◌++◌, nat_beq,
  if◌then◌else◌, nat_key,
}
use canvassync.JsMap
use canvassync.JsMap.{JsMap}
use canvassync.Crdt.{CanvasCrdtMetadata, Shape, merge_canvas_crdt_snapshot}
use canvassync.Crdt.Reconcile.{deletions_of}
use canvassync.Ws.Protocol.{
  SnapshotMessage, SnapshotBroadcast, room_joined, canvas_snapshot_ack, canvas_snapshot_broadcast,
}
use canvassync.Ws.Connections.{broadcast_to_room, get_room_presence_state}
use canvassync.Ws.Redis.{RoomSyncState, CommitEvent, commit_room_snapshot}
use canvassync.Ws.Persist.{enqueue_room_persist}
use canvassync.Ws.Node.{
  Node, committed, durable_room_event, send, send_error, with_hub, is_snapshot_rate_limited,
  can_edit_room, cache_room_sync_state, initialize_room_sync,
}
use canvassync.Ws.Env.{Env}
use canvassync.Ws.Handler.Presence.{is_active}

abbrev pub or_empty : Option (List String) → List String
or_empty none = []
or_empty (some ids) = ids

abbrev pub known : Option (JsMap String CanvasCrdtMetadata) → JsMap String CanvasCrdtMetadata
known none = JsMap.empty
known (some m) = m

module _ (env : Env) where
  -- The code puts the number into the text; the text is a parameter.
  abbrev pub mismatch : RoomSyncState → String
  mismatch state = env.version_mismatch state.version

  -- The state that the handler works on: the cached one, or a fresh one. none is a throw.
  unfoldable pub current_room_state : ℕ → Node → Option RoomSyncState × Node
  unfolding initialize_room_sync
  current_room_state room n = elim (JsMap.get n.room_sync_state room) [
    | some state ↦ (some state, n)
    | none ↦ initialize_room_sync (env.stored room) env.meanwhile room n
  ]

  abbrev pub merged_snapshot :
      RoomSyncState → SnapshotMessage → Node → List Shape × JsMap String CanvasCrdtMetadata
  merged_snapshot state m n =
      merge_canvas_crdt_snapshot env.collator state.shapes m.shapes
        (deletions_of m.deletion_meta (or_empty m.deleted_shape_ids))
        (known (JsMap.get n.room_crdt_tombstones m.room_id))

  abbrev pub commit_event : String → SnapshotMessage → CommitEvent
  commit_event user m = record {
    origin_node_id = env.node_id;
    sender_id = some user;
    action_id = env.action_id;
    deleted_shape_ids = m.deleted_shape_ids;
    deletion_meta = m.deletion_meta;
  }

  abbrev pub broadcast_msg : String → SnapshotMessage → ℕ → List Shape → SnapshotBroadcast
  broadcast_msg user m version shapes = record {
    room_id = m.room_id;
    version = version;
    shapes = shapes;
    sender_id = user;
    action_id = env.action_id;
    deleted_shape_ids = m.deleted_shape_ids;
    deletion_meta = m.deletion_meta;
  }

  -- The version that the commit expected was not the room's. false is a throw.
  unfoldable pub snapshot_refused : ℕ → String → ℕ → Node → Bool × Node
  unfolding initialize_room_sync get_room_presence_state send
  snapshot_refused ws user room n =
      let (fresh, n') = initialize_room_sync (env.stored room) env.meanwhile room n in
      elim fresh [
        | none ↦ (false, n')
        | some state ↦
            let presence = get_room_presence_state room n'.hub in
            (
              true,
              send ws
                  (room_joined (record {
                    room_id = room;
                    role = none;
                    version = state.version;
                    shapes = state.shapes;
                    user_id = user;
                    connected_users_count = presence.connected_users_count;
                    presences = presence.presences;
                  }))
                  (send_error ws (mismatch state) n'),
            )
      ]

  -- From `enqueueRoomPersist` to the end.
  unfoldable pub snapshot_accepted : ℕ → String → SnapshotMessage → ℕ → List Shape → Node → Node
  unfolding enqueue_room_persist cache_room_sync_state send broadcast_to_room
  snapshot_accepted ws user m version shapes n =
      let n1 : Node = record n {
        persist = enqueue_room_persist env.now env.now env.queued m.room_id shapes n.persist;
      } in
      let n2 =
        cache_room_sync_state (record { room_id = m.room_id; version = version; shapes = shapes })
          n1 in
      let n3 = send ws (canvas_snapshot_ack m.room_id version) n2 in
      let event = broadcast_msg user m version shapes in
      let n4 = with_hub (broadcast_to_room m.room_id (canvas_snapshot_broadcast event) ws) n3 in
      record n4 { outgoing = n4.outgoing ++ durable_room_event event ∷ [] }

  -- What follows on the commit.
  unfoldable pub conclude_snapshot :
      ℕ → String → SnapshotMessage → List Shape → Option ℕ → Node → Bool × Node
  unfolding snapshot_refused snapshot_accepted
  conclude_snapshot ws user m shapes none n = snapshot_refused ws user m.room_id n
  conclude_snapshot ws user m shapes (some v) n = (true, snapshot_accepted ws user m v shapes n)

  -- The merge and the commit, with the room's current state at hand.
  unfoldable pub commit_snapshot : ℕ → String → SnapshotMessage → RoomSyncState → Node → Bool × Node
  unfolding merge_canvas_crdt_snapshot commit_room_snapshot conclude_snapshot
  commit_snapshot ws user m state n =
      let (shapes, tombstones) = merged_snapshot state m n in
      let n1 : Node = record n {
        room_crdt_tombstones = JsMap.set n.room_crdt_tombstones m.room_id tombstones;
      } in
      let (version, r) =
        commit_room_snapshot env.now env.interfere m.room_id state.version shapes
          (commit_event user m) n1.redis in
      let n2 = env.meanwhile committed (record n1 { redis = r }) in
      conclude_snapshot ws user m shapes version n2

  -- Past the checks.
  unfoldable pub accept_snapshot : ℕ → String → SnapshotMessage → Node → Bool × Node
  unfolding current_room_state commit_snapshot
  accept_snapshot ws user m n =
      let (state, n') = current_room_state m.room_id n in
      elim state [ none ↦ (false, n') | some s ↦ commit_snapshot ws user m s n' ]

  -- The whole handler. false is a throw, which the connection's queue catches.
  unfoldable pub handle_canvas_snapshot : ℕ → String → SnapshotMessage → Node → Bool × Node
  unfolding is_snapshot_rate_limited can_edit_room accept_snapshot send
  handle_canvas_snapshot ws user m n =
      let (limited, n1) =
        is_snapshot_rate_limited env.now env.snapshot_limit env.snapshot_window_ms ws n in
      let (allowed, h) = can_edit_room env.now env.find_room ws m.room_id user n1.hub in
      let n2 : Node = record n1 { hub = h } in
      if limited
      then (true, send_error ws "Snapshot rate limit exceeded. Slow down and retry." n1)
      else if nat_beq m.room_id 0
      then (true, send_error ws "Invalid roomId" n1)
      else if not (is_active (n1.hub.sockets ws).current_room_id m.room_id)
      then (true, send_error ws "Forbidden" n1)
      else if allowed
      then accept_snapshot ws user m n2
      else (true, send_error ws "Read-only: you have view-only access to this room" n2)

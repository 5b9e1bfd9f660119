-- ===== src/Ws/Tests/Nodes.antt =====
-- A node with one room, and what comes to it.
use canvassync.Prelude.{
  Option, ◌+◌, ◌≤◌, leb, if◌then◌else◌, ℕ, true, ◌≡◌, refl, List, [], ◌∷◌, ◌++◌, none, some, arith,
  string_key, nat_key, foldl,
}
use canvassync.Collation.{code_unit_collator}
use canvassync.JsMap
use canvassync.JsValue.{property}
use canvassync.Ws.Protocol.{
  editor, viewer, direct, ServerMessage, SnapshotMessage, PersistedChatMessage,
}
use canvassync.Ws.Connections.{Hub, put_socket, join_active_room}
use canvassync.Ws.Redis.{RedisRoomEvent, RoomSyncState, get_room_version, commit_room_snapshot}
use canvassync.Ws.Persist.{is_persistable, unique_shapes}
use canvassync.Queue.Consumer.{Consumer, valid, end_message}
use canvassync.Queue.PersistJobs.{persist_handler, RoomPersistJob, overlap, overlap_goes_back}
use canvassync.Ws.Node.{RoomRow, Node, can_edit, can_edit_room, is_stale, get_room_role}
use canvassync.Ws.Roles.{IsRead, checks, can_edit_room_sound}
use canvassync.Ws.Env.{Env, not_ready}
use canvassync.Ws.Handler.Snapshot.{handle_canvas_snapshot, commit_snapshot, conclude_snapshot}
use canvassync.Ws.Handler.Chat.{deliver_chat}
use canvassync.Ws.Handler.Access.{rooms_of, handle_canvas_snapshot_read_only}
use canvassync.Ws.Handler.Cache.{Agrees, IsQuiet, commit_snapshot-Agrees}
use canvassync.Ws.Handler.Privacy.{OnlyTo, deliver_chat-OnlyTo}
use canvassync.Ws.CrossNode.{Remote}
use canvassync.Queue.Newest.{IsLatest, delivered, ended, job_step, newest-IsLatest}
use canvassync.Ws.Tests.{joined, alone, store, drawing, idle}

-- Bob looks at Ann's room.
abbrev env : Env
env = record {
  now = 100;
  find_room = λ room. some (record { admin_id = "ann"; member_role = λ user. some viewer });
  stored = λ room. some [];
  create_chat = λ chat. not_ready;
  interfere = alone;
  meanwhile = λ await n. n;
  queued = true;
  node_id = "node";
  action_id = "action";
  max_message_bytes = 524288;
  snapshot_limit = 90;
  snapshot_window_ms = 1000;
  ephemeral_limit = 60;
  collator = code_unit_collator;
  default_name = λ user. user;
  version_mismatch = λ version. "Version mismatch";
}

abbrev node : Node
node = record {
  hub = joined;
  room_sync_state = [];
  room_crdt_tombstones = [];
  snapshot_windows = λ ws. none;
  ephemeral_windows = λ ws. none;
  redis = store;
  persist = idle;
  outgoing = [];
  closed = [];
}

abbrev snapshot : SnapshotMessage
snapshot = record {
  room_id = 5;
  version = 0;
  shapes = drawing;
  deleted_shape_ids = none;
  deletion_meta = none;
}

-- Bob may edit until 10000, and his role was read at 50.
abbrev roles : ℕ → ℕ → Option RoomRow
roles at room = some (record {
  admin_id = "ann";
  member_role = λ user. if leb at 10000 then some editor else some viewer;
})

abbrev bobs_hub : Hub
bobs_hub = record joined {
  sockets =
      put_socket joined.sockets 1
        (record (joined.sockets 1) { role = some editor; role_checked_at_ms = some 50 });
}

bobs-IsRead : IsRead roles 5 "bob" 50 (bobs_hub.sockets 1)
unfolding get_room_role
bobs-IsRead = record { read_at = 50; checked = refl; role_then = refl; past = omega arith }

can_edit_room_sound_example :
    (at : ℕ) × (at ≤ 9900)
    × (9900 ≤ at + 10000)
    × (can_edit (get_room_role (roles at) 5 "bob") ≡ true)
unfolding can_edit_room is_stale get_room_role checks
can_edit_room_sound_example =
    can_edit_room_sound roles 1 5 "bob" (100 ∷ 9000 ∷ []) 50 9900 bobs_hub
      (omega arith, (omega arith, omega arith)) bobs-IsRead refl

handle_canvas_snapshot_read_only_example :
    rooms_of (handle_canvas_snapshot env 1 "bob" snapshot node).1 ≡ rooms_of node
unfolding can_edit_room is_stale join_active_room get_room_role
handle_canvas_snapshot_read_only_example =
    handle_canvas_snapshot_read_only env 1 "bob" snapshot node refl

abbrev loaded_room : RoomSyncState
loaded_room = record { room_id = 5; version = 0; shapes = [] }

undisturbed : IsQuiet 5 env.meanwhile
undisturbed = record { versions = λ a n. refl; snapshots = λ a n. refl; cached = λ n. refl }

commit_snapshot-Agrees_example : Agrees 5 (commit_snapshot env 1 "ann" snapshot loaded_room node).1
unfolding commit_snapshot commit_room_snapshot get_room_version JsMap.get conclude_snapshot
commit_snapshot-Agrees_example =
    commit_snapshot-Agrees env 1 "ann" snapshot loaded_room node (λ attempt r kept. refl)
      undisturbed refl

abbrev hello : PersistedChatMessage
hello = record {
  id = 1;
  room_id = 5;
  kind = direct;
  body = "hello";
  shape_id = none;
  created_at = "now";
  sender = record { id = "ann"; name = "Ann"; handle = none; photo = none };
  recipient = none;
}

deliver_chat-OnlyTo_example :
    (copies : List (ℕ × ServerMessage)) × ((deliver_chat 5 "ann" direct
        (some "bob")
        hello
        node).hub.sent
      ≡ node.hub.sent ++ copies)
    × OnlyTo ("ann" ∷ "bob" ∷ []) node.hub copies
deliver_chat-OnlyTo_example = deliver_chat-OnlyTo 5 "ann" "bob" hello node

abbrev remote : Remote
remote = record { node = node; seen_action_ids = []; latest_persisted_version = λ room. 0 }

abbrev remote_event : RedisRoomEvent
remote_event = record {
  room_id = 5;
  origin_node_id = "other";
  version = 3;
  shapes = drawing;
  sender_id = some "bob";
  deleted_shape_ids = none;
  deletion_meta = none;
  action_id = "act";
  published_at_ms = 90;
}

abbrev consumer : Consumer Remote RoomPersistJob
consumer = record {
  state = remote;
  has_channel = true;
  running = [];
  acked = [];
  requeued = [];
  unhandled_rejections = 0;
}

abbrev older_job : RoomPersistJob
older_job = record { room_id = 5; version = 1; shapes = [] }

abbrev newer_job : RoomPersistJob
newer_job = record { room_id = 5; version = 2; shapes = drawing }

overlap_goes_back_example :
    let c' = overlap 1 2 older_job newer_job consumer in
    (c'.acked ≡ 2 ∷ 1 ∷ [])
    × (c'.state.node.persist.rows 5 ≡ unique_shapes [])
    × (c'.state.latest_persisted_version 5 ≡ 1)
unfolding is_persistable property
overlap_goes_back_example =
    overlap_goes_back 1 2 older_job newer_job consumer refl tt
      (λ same. absurd (omega (arith, same))) refl (omega arith) (omega arith) refl refl

-- The older job comes again while the newer one waits.
abbrev waiting : Consumer Remote RoomPersistJob
waiting = record consumer { running = (2, newer_job) ∷ [] }

newest-IsLatest_example : IsLatest newer_job (
    foldl job_step
      (end_message persist_handler 2 true waiting)
      (delivered 3 (valid older_job) ∷ ended 3 true ∷ []))
unfolding is_persistable property JsMap.get JsMap.delete
newest-IsLatest_example =
    newest-IsLatest newer_job 2 waiting (delivered 3 (valid older_job) ∷ ended 3 true ∷ []) refl tt
      refl (refl, (tt, tt))

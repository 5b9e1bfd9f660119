-- ===== src/Ws/Tests.antt =====
-- Concrete nodes, sockets, commits and events.
mod History
mod Nodes
use canvassync.Prelude.{
  ℕ, ◌≤◌, Bool, true, false, ◌≡◌, refl, List, [], ◌∷◌, ◌++◌, none, some, arith, string_key, nat_key,
  max, min, length, nat_beq,
}
use canvassync.Collation.{code_unit_collator}
use canvassync.JsMap
use canvassync.JsMap.Nested.{set_in, empty-IsNested}
use canvassync.JsValue.{undefined, str, end, prop, property}
use canvassync.Crdt.{Shape}
use canvassync.Ws.Protocol.{viewer, direct, ServerMessage, SnapshotMessage, PersistedChatMessage}
use canvassync.Ws.Connections.{Socket, Hub, join_active_room, leave_active_room}
use canvassync.Ws.Connections.Counting.{connections, IsCounted}
use canvassync.Ws.Connections.Counted.{join_active_room_counts, leave_active_room_counts}
use canvassync.Ws.Redis.{
  Redis, RedisRoomEvent, RoomSyncState, CommitEvent, get_room_version, commit_room_snapshot,
}
use canvassync.Ws.Redis.Commit.{Outcome, commit_room_snapshot-Outcome, commit_room_snapshot_quiet}
use canvassync.Ws.Persist.{
  Persist, unique_shapes, is_persistable, schedule_room_persist, fire_persist_timer, finish_persist,
  get_durable_persist_cooldown_ms,
}
use canvassync.Ws.Persist.Delivery.{
  Event, schedule, timer, written, handle, run, rows-run, cooldown_bounds,
}
use canvassync.Ws.Node.{Node, can_edit_room, is_stale, get_room_role}
use canvassync.Ws.Rates.{admitted, admitted_exact}
use canvassync.Ws.Env.{Env, not_ready}
use canvassync.Ws.Handler.Snapshot.{handle_canvas_snapshot, commit_snapshot, conclude_snapshot}
use canvassync.Ws.Handler.Chat.{deliver_chat}
use canvassync.Ws.Handler.Access.{rooms_of, handle_canvas_snapshot_read_only}
use canvassync.Ws.Handler.Cache.{Agrees, commit_snapshot-Agrees}
use canvassync.Ws.Handler.Privacy.{OnlyTo, deliver_chat-OnlyTo}
use canvassync.Ws.CrossNode.{Remote, has_seen_action, apply_cross_node_room_event}
use canvassync.Ws.CrossNode.Dedup.{
  cached_version, cached_version_le, apply_cross_node_room_event_twice,
}

abbrev no_socket : Socket
no_socket = record {
  user_id = none;
  user_name = none;
  current_room_id = none;
  role = none;
  role_checked_at_ms = none;
  is_open = true;
}

-- Every socket is Ann's.
abbrev hub : Hub
hub = record {
  sockets = λ w. record no_socket { user_id = some "ann" };
  user_sockets = JsMap.empty;
  active_rooms = JsMap.empty;
  room_participants = JsMap.empty;
  room_presences = JsMap.empty;
  room_timers = JsMap.empty;
  room_voice = JsMap.empty;
  pending_presence_broadcast = JsMap.empty;
  sent = [];
}

hub-IsCounted : IsCounted hub
unfolding join_active_room JsMap.get JsMap.set JsMap.has set_in
hub-IsCounted = record {
  rooms_nested = empty-IsNested;
  participants_nested = empty-IsNested;
  counted = λ room user. refl;
}

abbrev joined : Hub
joined = (join_active_room 5 1 hub).1

join_active_room_counts_example :
    IsCounted joined × ((join_active_room 5 1 hub).0 ≡ nat_beq (connections 5 "ann" hub) 0)
unfolding join_active_room JsMap.get JsMap.set JsMap.has set_in
join_active_room_counts_example = join_active_room_counts 5 1 hub hub-IsCounted "ann" refl refl

leave_active_room_counts_example :
    IsCounted (leave_active_room 5 1 joined).1
    × ((leave_active_room 5 1 joined).0
        ≡ nat_beq (connections 5 "ann" (leave_active_room 5 1 joined).1) 0)
unfolding join_active_room JsMap.get JsMap.set JsMap.has set_in
leave_active_room_counts_example =
    leave_active_room_counts 5 1 joined join_active_room_counts_example.0 "ann" refl refl

-- Nobody disturbs the store.
abbrev alone : ℕ → Redis → Redis × Bool
alone attempt r = (r, false)

abbrev store : Redis
store = record { versions = []; snapshots = []; published = [] }

abbrev drawing : List Shape
drawing = record { id = "a"; crdt = undefined; rest = prop "type" (str "rect") end } ∷ []

abbrev a_commit : CommitEvent
a_commit = record {
  origin_node_id = "node";
  sender_id = some "ann";
  action_id = "action";
  deleted_shape_ids = none;
  deletion_meta = none;
}

commit_room_snapshot-Outcome_example :
    Outcome 0 alone 5 0 drawing a_commit store
      (commit_room_snapshot 0 alone 5 0 drawing a_commit store).0
      (commit_room_snapshot 0 alone 5 0 drawing a_commit store).1
commit_room_snapshot-Outcome_example =
    commit_room_snapshot-Outcome 0 alone 5 0 drawing a_commit store (λ attempt r kept. refl)

abbrev idle : Persist
idle = record {
  pending_timer = λ room. false;
  pending_shapes = λ room. none;
  in_flight = λ room. none;
  rows = λ room. [];
  history_pending = λ room. none;
  history_timer = λ room. false;
  failure_count = 0;
  retry_after_ms = 0;
}

-- The second drawing is scheduled while the first one is being written.
abbrev writes : List Event
writes =
    schedule 5 [] ∷ timer 5 ∷ schedule 5 drawing ∷ timer 5 ∷ written true 5 ∷ written true 5 ∷ []

rows-run_example : (run idle writes).rows 5 ≡ unique_shapes drawing
unfolding handle is_persistable schedule_room_persist fire_persist_timer finish_persist property
rows-run_example =
    rows-run 5 idle writes drawing (refl, (tt, (refl, (tt, (refl, (refl, tt)))))) refl refl refl

abbrev later : List ℕ
later = 7 ∷ 8 ∷ 9 ∷ []

admitted_exact_example : admitted 2 1000 none (7 ∷ later) ≡ min (length (7 ∷ later)) (max 1 2)
admitted_exact_example =
    admitted_exact 2 1000 7 later (omega arith, (omega arith, (omega arith, tt)))

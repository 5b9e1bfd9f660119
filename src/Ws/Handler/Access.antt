-- ===== src/Ws/Handler/Access.antt =====
-- messageHandler.ts, canvas_snapshot: what a sender without the right to edit can do.
use canvassync.Prelude.{ℕ, String, false, List, ◌≡◌, refl, nat_beq, nat_key, Bool-cases, inl, inr}
use canvassync.JsMap.{JsMap}
use canvassync.Crdt.{CanvasCrdtMetadata}
use canvassync.Ws.Protocol.{SnapshotMessage}
use canvassync.Ws.Redis.{Redis, RoomSyncState}
use canvassync.Ws.Persist.{Persist}
use canvassync.Ws.Node.{Node, Outgoing, send, is_snapshot_rate_limited, can_edit_room}
use canvassync.Ws.Env.{Env}
use canvassync.Ws.Handler.Presence.{is_active}
use canvassync.Ws.Handler.Snapshot.{handle_canvas_snapshot}

-- What a node holds of its rooms: all but the connections and the rate windows.
pub record Rooms : Type 0 where
  pub redis : Redis
  pub room_sync_state : JsMap ℕ RoomSyncState
  pub room_crdt_tombstones : JsMap ℕ (JsMap String CanvasCrdtMetadata)
  pub persist : Persist
  pub outgoing : List Outgoing

abbrev pub rooms_of : Node → Rooms
rooms_of n = record {
  redis = n.redis;
  room_sync_state = n.room_sync_state;
  room_crdt_tombstones = n.room_crdt_tombstones;
  persist = n.persist;
  outgoing = n.outgoing;
}

-- Where canEditRoom answers no, a canvas_snapshot leaves the store, the cached rooms, the
-- tombstones, the database writer and the queues to other nodes as they were.
pub handle_canvas_snapshot_read_only :
    (env : Env) (ws : ℕ) (user : String) (m : SnapshotMessage) (n : Node)
    → (can_edit_room env.now env.find_room ws m.room_id user n.hub).0 ≡ false
    → rooms_of (handle_canvas_snapshot env ws user m n).1 ≡ rooms_of n
unfolding handle_canvas_snapshot is_snapshot_rate_limited send
handle_canvas_snapshot_read_only env ws user m n e =
    rw e
      (elim (Bool-cases
        (is_snapshot_rate_limited env.now env.snapshot_limit env.snapshot_window_ms ws n).0) [
          | inl a ↦ rw a refl
          | inr a ↦ rw a (elim (Bool-cases (nat_beq m.room_id 0)) [
            | inl b ↦ rw b refl
            | inr b ↦
                rw b (elim (Bool-cases (is_active (n.hub.sockets ws).current_room_id m.room_id)) [
                  | inl c ↦ rw c refl
                  | inr c ↦ rw c refl
                ])
          ])
        ])

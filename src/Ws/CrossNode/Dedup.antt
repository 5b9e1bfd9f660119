-- ===== src/Ws/CrossNode/Dedup.antt =====
-- apps/ws-backend/src/index.ts: room events that come twice, late, or from the node itself.
use mathlib.Core.Path.{subst, subst⁻¹}
use canvassync.Prelude.{
  ℕ, ◌+◌, ◌≤◌, String, true, false, Option, none, some, ◌≡◌, ◌≢◌, refl, arith, inl, inr, Bool-cases,
  nat_beq, nat_beq_iff, ◌==◌, string_key, nat_key,
}
use canvassync.JsMap
use canvassync.JsMap.Laws.{get-set, get-set_self}
use canvassync.Ws.Redis.{RedisRoomEvent, RoomSyncState}
use canvassync.Ws.Node.{Node, cache_room_sync_state}
use canvassync.Ws.CrossNode.{
  Remote, has_seen_action, remember_action, bury, is_regression, apply_snapshot,
  apply_cross_node_room_event,
}

-- The version of a room in the node's cache, 0 where there is none.
abbrev version_of : Option RoomSyncState → ℕ
version_of none = 0
version_of (some s) = s.version

abbrev pub cached_version : ℕ → Remote → ℕ
cached_version room r = version_of (JsMap.get r.node.room_sync_state room)

remember_action_lem :
    (now later : ℕ) (id : String) (seen : JsMap.JsMap String ℕ)
    → now ≢ 0
    → later ≤ now + 120000
    → has_seen_action later id (remember_action now id seen) ≡ (true, remember_action now id seen)
unfolding has_seen_action remember_action
remember_action_lem now later id seen nonzero soon =
    rw (has_seen_action, get-set_self seen id now) (ground (arith, nat_beq_iff now 0))

-- The node's own events and the seen ones.
ignored :
    (node_id : String) (later : ℕ) (event : RedisRoomEvent) (r : Remote)
    → has_seen_action later event.action_id r.seen_action_ids ≡ (true, r.seen_action_ids)
    → apply_cross_node_room_event node_id later event r ≡ r
unfolding apply_cross_node_room_event
ignored node_id later event r e = elim (Bool-cases (event.origin_node_id == node_id)) [
  | inl own ↦ rw own refl
  | inr other ↦ rw (other, e) refl
]

own_event :
    (node_id : String) (now : ℕ) (event : RedisRoomEvent) (r : Remote)
    → (event.origin_node_id == node_id) ≡ true
    → apply_cross_node_room_event node_id now event r ≡ r
unfolding apply_cross_node_room_event
own_event node_id now event r own = rw own refl

remembered :
    (node_id : String) (now : ℕ) (event : RedisRoomEvent) (r : Remote)
    → (event.origin_node_id == node_id) ≡ false
    → (has_seen_action now event.action_id r.seen_action_ids).0 ≡ false
    → (apply_cross_node_room_event node_id now event r).seen_action_ids
      ≡ remember_action now event.action_id
          (has_seen_action now event.action_id r.seen_action_ids).1
unfolding apply_cross_node_room_event
remembered node_id now event r other fresh =
    rw (other, fresh)
      (elim (Bool-cases
        (is_regression event.version (JsMap.get r.node.room_sync_state event.room_id))) [
          | inl old ↦ rw old refl
          | inr new ↦ rw new refl
        ])

-- A room event whose action the node has not seen, and that comes again within two minutes,
-- changes nothing the second time; the first time is not 0.
pub apply_cross_node_room_event_twice :
    (node_id : String) (now later : ℕ) (event : RedisRoomEvent) (r : Remote)
    → now ≢ 0
    → later ≤ now + 120000
    → (has_seen_action now event.action_id r.seen_action_ids).0 ≡ false
    → apply_cross_node_room_event node_id later event
        (apply_cross_node_room_event node_id now event r)
      ≡ apply_cross_node_room_event node_id now event r
apply_cross_node_room_event_twice node_id now later event r nonzero soon fresh =
    elim (Bool-cases (event.origin_node_id == node_id)) [
      | inl own ↦
          own_event node_id later event (apply_cross_node_room_event node_id now event r) own
      | inr other ↦ ignored node_id later event (apply_cross_node_room_event node_id now event r) (
          subst⁻¹ (λ s. has_seen_action later event.action_id s ≡ (true, s))
            (remembered node_id now event r other fresh)
            (remember_action_lem now later event.action_id
              (has_seen_action now event.action_id r.seen_action_ids).1 nonzero soon))
    ]

bury-room_sync_state :
    (event : RedisRoomEvent) (n : Node) → (bury event n).room_sync_state ≡ n.room_sync_state
unfolding bury
bury-room_sync_state event n = ground arith

abbrev carried : RedisRoomEvent → RoomSyncState
carried event = record { room_id = event.room_id; version = event.version; shapes = event.shapes }

apply_snapshot-room_sync_state :
    (event : RedisRoomEvent) (n : Node)
    → (apply_snapshot event n).room_sync_state
      ≡ JsMap.set n.room_sync_state event.room_id (carried event)
unfolding apply_snapshot cache_room_sync_state
apply_snapshot-room_sync_state event n =
    ground (arith, bury-room_sync_state event (cache_room_sync_state (carried event) n))

newer_le :
    (version : ℕ) (o : Option RoomSyncState)
    → is_regression version o ≡ false
    → version_of o ≤ version
unfolding is_regression
newer_le version none e = ground arith
newer_le version (some s) e = ground arith

-- An event that is no regression does not lower the version of any room.
applied_le :
    (room : ℕ) (event : RedisRoomEvent) (n : Node)
    → is_regression event.version (JsMap.get n.room_sync_state event.room_id) ≡ false
    → version_of (JsMap.get n.room_sync_state room)
      ≤ version_of (JsMap.get (apply_snapshot event n).room_sync_state room)
unfolding is_regression
applied_le room event n newer =
    rw
      (
        apply_snapshot-room_sync_state event n,
        get-set n.room_sync_state event.room_id room (carried event),
      )
      (elim (Bool-cases (nat_beq event.room_id room)) [
        | inl same ↦ rw same (
            subst (λ k. version_of (JsMap.get n.room_sync_state k) ≤ event.version)
              ((nat_beq_iff event.room_id room).0 same) (newer_le event.version _ newer))
        | inr other ↦ rw other (ground arith)
      ])

-- Whatever room event comes from the other nodes, the cached version of no room goes back.
pub cached_version_le :
    (node_id : String) (now : ℕ) (event : RedisRoomEvent) (room : ℕ) (r : Remote)
    → cached_version room r ≤ cached_version room (apply_cross_node_room_event node_id now event r)
unfolding apply_cross_node_room_event
cached_version_le node_id now event room r = elim (Bool-cases (event.origin_node_id == node_id)) [
  | inl own ↦ rw own (ground arith)
  | inr other ↦
      rw other (elim (Bool-cases (has_seen_action now event.action_id r.seen_action_ids).0) [
        | inl seen ↦ rw seen (ground arith)
        | inr fresh ↦
            rw fresh
              (elim (Bool-cases
                (is_regression event.version (JsMap.get r.node.room_sync_state event.room_id))) [
                  | inl old ↦ rw old (ground arith)
                  | inr newer ↦ rw newer (applied_le room event r.node newer)
                ])
      ])
]

-- ===== src/Ws/Persist.antt =====
-- apps/ws-backend/src/ws/roomSync.ts, the half that writes rooms to the database: a debounce timer
-- and at most one write in flight for each room, and the breaker in front of the durable queue.
-- The code never iterates over these maps, so they are functions. What `setTimeout` and the
-- database do is an `Event`; `in_flight` holds the shapes that the awaited write was given.
pub mod Delivery
use canvassync.Prelude.{
  ℕ, zero, ◌+◌, ◌-◌, ◌*◌, ◌^◌, min, String, Bool, true, false, not, ◌&&◌, Option, none, some, List,
  all, ltb, nat_beq, if◌then◌else◌, ◌==◌, string_key,
}
use canvassync.JsValue.{JsValue, str, property}
use canvassync.JsMap
use canvassync.Crdt.{Shape}
use canvassync.Crdt.Reconcile.{by_id}

pub record Persist : Type 0 where
  pub pending_timer : ℕ → Bool
  pub pending_shapes : ℕ → Option (List Shape)
  pub in_flight : ℕ → Option (List Shape)
  -- The rows of `prismaClient.shape`, by room.
  pub rows : ℕ → List Shape
  -- scheduleHistorySnapshot's pending shapes, and its timers.
  pub history_pending : ℕ → Option (List Shape)
  pub history_timer : ℕ → Bool
  pub failure_count : ℕ
  pub retry_after_ms : ℕ

abbrev pub update {ℓ} : {V : Type ℓ} (of : ℕ → V) (room : ℕ) (value : V) → ℕ → V
update of room value = λ other. if nat_beq other room then value else of other

unfoldable pub get_durable_persist_cooldown_ms : ℕ → ℕ
get_durable_persist_cooldown_ms failure_count = min 30000 (2000 * 2 ^ (failure_count - 1))

abbrev is_text : JsValue → Bool
is_text (str s) = not (s == "")
is_text _ = false

-- The checks at the head of `persistShapes`.
unfoldable pub is_persistable : Shape → Bool
is_persistable s = not (s.id == "") && is_text (property "type" s.rest)

-- Deduplicate by id, the last one winning.
unfoldable pub unique_shapes : List Shape → List Shape
unfolding by_id
unique_shapes shapes = JsMap.values (by_id shapes)

unfoldable pub schedule_history_snapshot : ℕ → List Shape → Persist → Persist
schedule_history_snapshot room shapes p = record p {
  history_pending = update p.history_pending room (some shapes);
  history_timer = update p.history_timer room true;
}

-- persistShapes, where the database takes the transaction or refuses it: false is a throw.
unfoldable pub persist_shapes : (accepted : Bool) → ℕ → List Shape → Persist → Bool × Persist
unfolding schedule_history_snapshot
persist_shapes accepted room shapes p =
    if all is_persistable shapes && accepted
    then (
      true,
      schedule_history_snapshot room (unique_shapes shapes)
          (record p { rows = update p.rows room (unique_shapes shapes) }),
    )
    else (false, p)

-- persistQueuedRoom up to its `await`.
unfoldable pub persist_queued_room : ℕ → Persist → Persist
persist_queued_room room p = elim (p.in_flight room) [
  | some _ ↦ p
  | none ↦ elim (p.pending_shapes room) [
    | none ↦ p
    | some shapes ↦ record p {
      pending_shapes = update p.pending_shapes room none;
      in_flight = update p.in_flight room (some shapes);
    }
  ]
]

-- ... and from there on, `catch` and `finally` included.
unfoldable pub finish_persist : (accepted : Bool) → ℕ → Persist → Persist
unfolding persist_shapes persist_queued_room
finish_persist accepted room p = elim (p.in_flight room) [
  | none ↦ p
  | some shapes ↦
      let (_, p') = persist_shapes accepted room shapes p in
      persist_queued_room room (record p' { in_flight = update p'.in_flight room none })
]

unfoldable pub schedule_room_persist : ℕ → List Shape → Persist → Persist
schedule_room_persist room shapes p = record p {
  pending_shapes = update p.pending_shapes room (some shapes);
  pending_timer = update p.pending_timer room true;
}

-- The callback of the debounce timer.
unfoldable pub fire_persist_timer : ℕ → Persist → Persist
unfolding persist_queued_room
fire_persist_timer room p =
    if p.pending_timer room
    then persist_queued_room room (record p { pending_timer = update p.pending_timer room false })
    else p

-- enqueueRoomPersist: `queued` says whether the queue confirmed the job, `later` is the time at
-- which it did not.
unfoldable pub enqueue_room_persist :
    (now later : ℕ) (queued : Bool) → ℕ → List Shape → Persist → Persist
unfolding schedule_room_persist get_durable_persist_cooldown_ms
enqueue_room_persist now later queued room shapes p =
    if ltb now p.retry_after_ms
    then schedule_room_persist room shapes p
    else if queued
    then record p { failure_count = 0; retry_after_ms = 0 }
    else schedule_room_persist room shapes (record p {
      failure_count = p.failure_count + 1;
      retry_after_ms = later + get_durable_persist_cooldown_ms (p.failure_count + 1);
    })

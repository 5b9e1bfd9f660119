-- ===== src/Ws/History.antt =====
-- The history of a room in apps/ws-backend/src/ws/roomSync.ts: writeHistorySnapshot and the timer
-- that calls it.
pub mod Pruned
pub mod Invariant
pub mod Recorded
use canvassync.Prelude.{
  ℕ, zero, suc, ◌+◌, String, Bool, true, false, not, Option, none, some, List, [], ◌∷◌, length, any,
  select, nat_beq, ◌==◌, string_key, if◌then◌else◌,
}
use canvassync.Crdt.{Shape}
use canvassync.Ws.Persist.{Persist, update}

-- A row of the table RoomSnapshot, and the rows with the youngest first.
pub record RoomSnapshot : Type 0 where
  pub id : ℕ
  pub room_id : ℕ
  pub shapes : List Shape
  pub shape_count : ℕ

-- `next_id` stands for `@default(autoincrement())`.
pub record History : Type 0 where
  pub persist : Persist
  pub last_fingerprint : ℕ → Option String
  pub snapshots : List RoomSnapshot
  pub next_id : ℕ

abbrev pub drop : ℕ → List RoomSnapshot → List RoomSnapshot
drop zero rows = rows
drop (suc n) [] = []
drop (suc n) (row ∷ rows) = drop n rows

abbrev pub of_room : ℕ → RoomSnapshot → Bool
of_room room row = nat_beq row.room_id room

-- where: { id: { in: … } }
abbrev pub is_among : List RoomSnapshot → RoomSnapshot → Bool
is_among rows row = any (λ other. nat_beq other.id row.id) rows

-- The rows of the room behind the first `max` ones are deleted.
unfoldable pub prune_history : (max room : ℕ) → List RoomSnapshot → List RoomSnapshot
prune_history max room rows =
    select (λ row. not (is_among (drop max (select (of_room room) rows)) row)) rows

abbrev pub same_fingerprint : Option String → String → Bool
same_fingerprint none fingerprint = false
same_fingerprint (some last) fingerprint = last == fingerprint

-- How the calls of the database end: the insertion fails, or the deletion after it does, or neither.
pub data HistoryWrite : Type 0 where
  not_created not_pruned complete : HistoryWrite

abbrev pub snapshots_after : HistoryWrite → (max room : ℕ) → List RoomSnapshot → List RoomSnapshot
snapshots_after complete max room rows = prune_history max room rows
snapshots_after write max room rows = rows

abbrev pub forget_pending : ℕ → History → History
forget_pending room h = record h {
  persist = record h.persist { history_pending = update h.persist.history_pending room none };
}

abbrev pub record_snapshot :
    (json : List Shape → String) (max : ℕ) → HistoryWrite → ℕ → List Shape → History → History
record_snapshot json max not_created room shapes h = h
record_snapshot json max write room shapes h = record h {
  snapshots = snapshots_after write max room (
      record { id = h.next_id; room_id = room; shapes = shapes; shape_count = length shapes }
      ∷ h.snapshots);
  next_id = h.next_id + 1;
  last_fingerprint = update h.last_fingerprint room (some (json shapes));
}

-- `json` is JSON.stringify, and `max` is HISTORY_MAX_SNAPSHOTS_PER_ROOM. The awaits of one call
-- follow each other at once.
unfoldable pub write_history_snapshot :
    (json : List Shape → String) (max : ℕ) → HistoryWrite → ℕ → History → History
unfolding prune_history
write_history_snapshot json max write room h = elim (h.persist.history_pending room) [
  | none ↦ forget_pending room h
  | some shapes ↦
      if same_fingerprint (h.last_fingerprint room) (json shapes)
      then forget_pending room h
      else record_snapshot json max write room shapes (forget_pending room h)
]

-- The callback of the timer.
unfoldable pub fire_history_timer :
    (json : List Shape → String) (max : ℕ) → HistoryWrite → ℕ → History → History
unfolding write_history_snapshot
fire_history_timer json max write room h = write_history_snapshot json max write room (record h {
  persist = record h.persist { history_timer = update h.persist.history_timer room false };
})

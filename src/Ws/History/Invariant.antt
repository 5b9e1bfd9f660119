-- ===== src/Ws/History/Invariant.antt =====
-- What is so of the histories of the rooms, and of one more row:
-- apps/ws-backend/src/ws/roomSync.ts.
use canvassync.Prelude.{
  ℕ, ◌+◌, ◌<◌, String, Bool, true, false, Option, none, some, List, ◌∷◌, ◌≡◌, sym, ◌∙◌, inl, inr,
  length, any, find, All, All-impl, nat_beq, nat_beq_iff, ◌==◌, string_key, matches_refl,
  Bool-cases, Option-cases, arith,
}
use mathlib.Core.Path.{subst}
use canvassync.Crdt.{Shape}
use canvassync.Ws.Persist.{update, schedule_history_snapshot}
use canvassync.Rooms.Table.{Once}
use canvassync.Ws.History.{RoomSnapshot, History, of_room, HistoryWrite, fire_history_timer}
use canvassync.Ws.History.Pruned.{row_has_id, unused_id}

-- What happens: a room's shapes are written, or the timer of a room runs out.
pub data HistoryEvent : Type 0 where
  persisted : (room : ℕ) (shapes : List Shape) → HistoryEvent
  timed_out : (write : HistoryWrite) (room : ℕ) → HistoryEvent

abbrev pub row_of : History → ℕ → List Shape → RoomSnapshot
row_of h room shapes = record {
  id = h.next_id;
  room_id = room;
  shapes = shapes;
  shape_count = length shapes;
}

module _ (json : List Shape → String) (max : ℕ) where
  unfoldable pub history_step : History → HistoryEvent → History
  unfolding schedule_history_snapshot fire_history_timer
  history_step h (persisted room shapes) = record h {
    persist = schedule_history_snapshot room shapes h.persist;
  }
  history_step h (timed_out write room) = fire_history_timer json max write room h

  -- Whether the youngest snapshot of a room has a fingerprint.
  abbrev pub shows : Option RoomSnapshot → String → Bool
  shows none fingerprint = false
  shows (some row) fingerprint = json row.shapes == fingerprint

  -- Ids are unique, and the last fingerprint of a room is the one of its youngest snapshot.
  pub record IsRecorded (h : History) : Type 0 where
    pub fresh : All (λ row. row.id < h.next_id) h.snapshots
    pub once : (i : ℕ) → Once (row_has_id i) h.snapshots
    pub shown :
        (room : ℕ) (fingerprint : String)
        → h.last_fingerprint room ≡ some fingerprint
        → shows (find (of_room room) h.snapshots) fingerprint ≡ true

  pub cons-fresh :
      (h : History) (row : RoomSnapshot)
      → row.id ≡ h.next_id
      → All (λ other. other.id < h.next_id) h.snapshots
      → All (λ other. other.id < h.next_id + 1) (row ∷ h.snapshots)
  cons-fresh h row e below = (
    omega (arith, e),
    All-impl (λ other. other.id < h.next_id) (λ other. other.id < h.next_id + 1) h.snapshots
        (λ other b. omega arith) below,
  )

  pub cons-once :
      (h : History) (row : RoomSnapshot)
      → row.id ≡ h.next_id
      → IsRecorded h
      → (i : ℕ) → Once (row_has_id i) (row ∷ h.snapshots)
  cons-once h row e good i = (
    λ own.
        subst (λ n. any (row_has_id n) h.snapshots ≡ false) (sym e ∙ (nat_beq_iff row.id i).0 own)
          (unused_id h.next_id h.snapshots good.fresh),
    good.once i,
  )

  -- The fingerprints after a row for a room, if the youngest rows are what they should be.
  pub shown-after :
      (h : History) (room : ℕ) (row : RoomSnapshot) (rows : List RoomSnapshot)
      → IsRecorded h
      → find (of_room room) rows ≡ some row
      → ((r : ℕ) (x : RoomSnapshot)
          → nat_beq r room ≡ false
          → find (of_room r) h.snapshots ≡ some x
          → find (of_room r) rows ≡ some x)
      → (r : ℕ) (fingerprint : String)
      → update h.last_fingerprint room (some (json row.shapes)) r ≡ some fingerprint
      → shows (find (of_room r) rows) fingerprint ≡ true
  shown-after h room row rows good own other r fingerprint last =
      elim (Bool-cases (nat_beq r room)) [
        | inl same ↦
            let here : r ≡ room = (nat_beq_iff r room).0 same in
            ground (arith, here, own, last, same, matches_refl (json row.shapes))
        | inr apart ↦ elim (Option-cases (find (of_room r) h.snapshots)) [
          | inl nothing ↦ ground (arith, good.shown r fingerprint, nothing, apart, last)
          | inr (x, there) ↦ ground (arith, good.shown r fingerprint, there, other r x, apart, last)
        ]
      ]

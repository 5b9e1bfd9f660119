-- ===== src/Ws/Tests/History.antt =====
-- The history of a room that is drawn and stays as it is.
use canvassync.Prelude.{ℕ, String, List, [], ◌∷◌, none, ◌≡◌, refl, true, find, foldl, arith}
use canvassync.Crdt.{Shape}
use canvassync.Ws.History.{History, of_room, complete, not_created}
use canvassync.Ws.History.Invariant.{HistoryEvent, persisted, timed_out, history_step, shows}
use canvassync.Ws.History.Recorded.{timed_out-shows}
use canvassync.Ws.History.Pruned.{row_has_id}
use canvassync.Rooms.Table.{Once}
use canvassync.Ws.Tests.{drawing, idle}

-- A stand-in for JSON.stringify.
abbrev json : List Shape → String
json [] = "[]"
json (shape ∷ shapes) = "[…]"

abbrev start : History
start = record {
  persist = idle;
  last_fingerprint = λ room. none;
  snapshots = record { id = 1; room_id = 6; shapes = []; shape_count = 0 } ∷ [];
  next_id = 2;
}

-- The second time the drawing is the same, and no snapshot is made.
abbrev drawn : List HistoryEvent
drawn =
    persisted 5 drawing
    ∷ timed_out complete 5
    ∷ persisted 5 []
    ∷ timed_out complete 5
    ∷ persisted 5 drawing
    ∷ []

once : (i : ℕ) → Once (row_has_id i) start.snapshots
once i = (λ h. refl, tt)

works : ¬ complete ≡ not_created
works e = cc

timed_out-shows_example :
    shows json 2
      (find
        (of_room 5)
        (history_step json 2
          (foldl (history_step json 2) start drawn)
          (timed_out complete 5)).snapshots)
      (json drawing)
    ≡ true
unfolding history_step
timed_out-shows_example =
    timed_out-shows json 1 drawn start 5 drawing complete (omega arith, tt) once (λ r. refl) refl
      works

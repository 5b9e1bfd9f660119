-- ===== src/Ws/History/Recorded.antt =====
-- What the history of a room holds after series of writes and timers:
-- apps/ws-backend/src/ws/roomSync.ts.
use canvassync.Prelude.{
  ℕ, suc, ◌+◌, ◌<◌, String, true, false, Option, none, some, List, [], ◌∷◌, ◌≡◌, refl, ap, sym, ◌∙◌,
  inl, inr, find, foldl, All, nat_beq_iff, string_key, Bool-cases, Option-cases, arith,
}
use canvassync.Crdt.{Shape}
use canvassync.Ws.Persist.{Persist, update, schedule_history_snapshot}
use canvassync.Rooms.Table.{Once}
use canvassync.Ws.History.{
  History, of_room, prune_history, same_fingerprint, HistoryWrite, not_created, not_pruned,
  complete, forget_pending, record_snapshot, write_history_snapshot, fire_history_timer,
}
use canvassync.Ws.History.Pruned.{
  row_has_id, found_first, found_later, prune-own, prune-other, prune-All, prune-Once,
}
use canvassync.Ws.History.Invariant.{
  HistoryEvent, persisted, timed_out, history_step, shows, IsRecorded, row_of, cons-fresh,
  cons-once, shown-after,
}

module _ (json : List Shape → String) (m : ℕ) where
  abbrev timer_gone : ℕ → History → History
  timer_gone room h = record h {
    persist = record h.persist { history_timer = update h.persist.history_timer room false };
  }

  -- What waits to be written has no part in it.
  repersisted :
      (persist : Persist) (h : History)
      → IsRecorded json (suc m) h
      → IsRecorded json (suc m) (record h { persist = persist })
  repersisted persist h good = record { fresh = good.fresh; once = good.once; shown = good.shown }

  forgotten :
      (room : ℕ) (h : History)
      → IsRecorded json (suc m) h
      → IsRecorded json (suc m) (forget_pending room h)
  forgotten room h good = repersisted _ h good

  record_snapshot-IsRecorded :
      (write : HistoryWrite) (room : ℕ) (shapes : List Shape) (h : History)
      → IsRecorded json (suc m) h
      → IsRecorded json (suc m) (record_snapshot json (suc m) write room shapes h)
  record_snapshot-IsRecorded not_created room shapes h good = good
  record_snapshot-IsRecorded not_pruned room shapes h good =
      let row = row_of h room shapes in
      record {
        fresh = cons-fresh json (suc m) h row refl good.fresh;
        once = cons-once json (suc m) h row refl good;
        shown =
            shown-after json (suc m) h room row (row ∷ h.snapshots) good
              (found_first m room row h.snapshots refl)
              (λ r x apart there. found_later m room row h.snapshots r x refl apart there);
      }
  record_snapshot-IsRecorded complete room shapes h good =
      let row = row_of h room shapes in
      record {
        fresh =
            prune-All (suc m) room (λ other. other.id < h.next_id + 1) (row ∷ h.snapshots)
              (cons-fresh json (suc m) h row refl good.fresh);
        once = λ i.
            prune-Once (suc m) room i (row ∷ h.snapshots)
              (cons-once json (suc m) h row refl good i);
        shown =
            shown-after json (suc m) h room row (prune_history (suc m) room (row ∷ h.snapshots))
              good (prune-own m room row h.snapshots good.fresh refl)
              (λ r x apart there.
                prune-other m room row h.snapshots r x good.once refl apart there);
      }

  write_history_snapshot-IsRecorded :
      (write : HistoryWrite) (room : ℕ) (h : History)
      → IsRecorded json (suc m) h
      → IsRecorded json (suc m) (write_history_snapshot json (suc m) write room h)
  unfolding write_history_snapshot
  write_history_snapshot-IsRecorded write room h good =
      elim (Option-cases (h.persist.history_pending room)) [
        | inl nothing ↦ rw (nothing, write_history_snapshot) (forgotten room h good)
        | inr (shapes, waiting) ↦
            rw (waiting, write_history_snapshot)
              (elim (Bool-cases (same_fingerprint (h.last_fingerprint room) (json shapes))) [
                | inl same ↦ rw same (forgotten room h good)
                | inr changed ↦ rw changed (
                    record_snapshot-IsRecorded write room shapes (forget_pending room h)
                      (forgotten room h good))
              ])
      ]

  history_step-IsRecorded :
      (h : History) (event : HistoryEvent)
      → IsRecorded json (suc m) h
      → IsRecorded json (suc m) (history_step json (suc m) h event)
  unfolding history_step schedule_history_snapshot fire_history_timer
  history_step-IsRecorded h (persisted room shapes) good =
      repersisted (schedule_history_snapshot room shapes h.persist) h good
  history_step-IsRecorded h (timed_out write room) good =
      write_history_snapshot-IsRecorded write room (timer_gone room h) (repersisted _ h good)

  history-IsRecorded :
      (events : List HistoryEvent) (h : History)
      → IsRecorded json (suc m) h
      → IsRecorded json (suc m) (foldl (history_step json (suc m)) h events)
  history-IsRecorded [] h good = good
  history-IsRecorded (event ∷ events) h good =
      history-IsRecorded events (history_step json (suc m) h event)
        (history_step-IsRecorded h event good)

  recorded_fingerprint :
      (write : HistoryWrite) (room : ℕ) (shapes : List Shape) (h : History)
      → ¬ write ≡ not_created
      → (record_snapshot json (suc m) write room shapes h).last_fingerprint room
        ≡ some (json shapes)
  recorded_fingerprint not_created room shapes h works = absurd (works refl)
  recorded_fingerprint not_pruned room shapes h works =
      ground (arith, (nat_beq_iff room room).1 refl)
  recorded_fingerprint complete room shapes h works = ground (arith, (nat_beq_iff room room).1 refl)

  same_fingerprint-eq :
      (last : Option String) (fingerprint : String)
      → same_fingerprint last fingerprint ≡ true
      → last ≡ some fingerprint
  same_fingerprint-eq none fingerprint same = cc
  same_fingerprint-eq (some last) fingerprint same =
      ap some ((string_key.matches_iff last fingerprint).0 same)

  written_fingerprint :
      (write : HistoryWrite) (room : ℕ) (h : History) (shapes : List Shape)
      → h.persist.history_pending room ≡ some shapes
      → ¬ write ≡ not_created
      → (write_history_snapshot json (suc m) write room h).last_fingerprint room
        ≡ some (json shapes)
  unfolding write_history_snapshot
  written_fingerprint write room h shapes waiting works =
      rw (waiting, write_history_snapshot)
        (elim (Bool-cases (same_fingerprint (h.last_fingerprint room) (json shapes))) [
          | inl same ↦ rw same (same_fingerprint-eq (h.last_fingerprint room) (json shapes) same)
          | inr changed ↦
              rw changed (recorded_fingerprint write room shapes (forget_pending room h) works)
        ])

  no_fingerprint : {fingerprint : String} → ¬ none ≡ some fingerprint
  no_fingerprint e = cc

  -- After any series of writes and timers, from history maps without fingerprints and a table
  -- whose ids are unique and below the next one, and with room for at least one snapshot per room:
  -- if shapes wait for a room, its timer runs out and the insertion does not fail, the youngest
  -- snapshot of the room has the fingerprint of those shapes, whether a new one was made or the
  -- last one was the same.
  pub timed_out-shows :
      (events : List HistoryEvent) (start : History) (room : ℕ) (shapes : List Shape)
      (write : HistoryWrite)
      → All (λ row. row.id < start.next_id) start.snapshots
      → ((i : ℕ) → Once (row_has_id i) start.snapshots)
      → ((r : ℕ) → start.last_fingerprint r ≡ none)
      → (foldl (history_step json (suc m)) start events).persist.history_pending room ≡ some shapes
      → ¬ write ≡ not_created
      → shows json
          (suc m)
          (find
            (of_room room)
            (history_step json
              (suc m)
              (foldl (history_step json (suc m)) start events)
              (timed_out write room)).snapshots)
          (json shapes)
        ≡ true
  unfolding history_step fire_history_timer
  timed_out-shows events start room shapes write fresh once blank waiting works =
      let before = foldl (history_step json (suc m)) start events in
      (history_step-IsRecorded before (timed_out write room) (
          history-IsRecorded events start (record {
            fresh = fresh;
            once = once;
            shown = λ r fingerprint last. absurd (no_fingerprint (sym (blank r) ∙ last));
          }))).shown
        room (json shapes)
        (written_fingerprint write room (timer_gone room before) shapes waiting works)

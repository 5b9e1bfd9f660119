-- ===== src/Queue/PersistJobs.antt =====
-- The handler of persist jobs in apps/ws-backend/src/index.ts, startRoomPersistConsumer, run by the
-- consumer of packages/queue-sync/src/index.ts.
use canvassync.Prelude.{
  ℕ, ◌<◌, Bool, true, false, some, List, [], ◌∷◌, ◌++◌, all, leb, if◌then◌else◌, nat_key, ◌==◌, ◌≡◌,
  ◌≢◌, ap, ◌∙◌, refl, arith, nat_beq_iff,
}
use canvassync.JsMap
use canvassync.JsMap.{JsMap, IsMap}
use canvassync.JsMap.Laws.{get-set, get-delete, get-set_self, set-IsMap}
use mathlib.Core.Path.{subst⁻¹}
use canvassync.Crdt.{Shape}
use canvassync.Ws.Persist.{
  persist_shapes, is_persistable, unique_shapes, update, schedule_history_snapshot,
}
use canvassync.Ws.CrossNode.{Remote}
use canvassync.Queue.Consumer.{Handler, Consumer, valid, consume_message, end_message}

pub record RoomPersistJob : Type 0 where
  pub room_id : ℕ
  pub version : ℕ
  pub shapes : List Shape

-- The check before the `await`, and what follows it.
unfoldable pub is_known_version : RoomPersistJob → Remote → Bool
is_known_version job r = leb job.version (r.latest_persisted_version job.room_id)

unfoldable pub finish_persist_job : (accepted : Bool) → RoomPersistJob → Remote → Bool × Remote
unfolding persist_shapes
finish_persist_job accepted job r =
    let (ok, p) = persist_shapes accepted job.room_id job.shapes r.node.persist in
    let r' : Remote = record r { node = record r.node { persist = p } } in
    if ok
    then (
      true,
      record r' {
        latest_persisted_version = update r.latest_persisted_version job.room_id job.version;
      },
    )
    else (false, r')

abbrev pub persist_handler : Handler Remote RoomPersistJob
persist_handler = record { returns_early = is_known_version; resume = finish_persist_job }

-- What a job leaves that the database takes.
abbrev pub stored : RoomPersistJob → Remote → Remote
stored job r = (finish_persist_job true job r).1

pub finish_valid :
    (job : RoomPersistJob) (r : Remote)
    → all is_persistable job.shapes ≡ true
    → finish_persist_job true job r ≡ (true, stored job r)
unfolding finish_persist_job persist_shapes
finish_valid job r ok = ground (arith, ok)

pub stored_rows :
    (job : RoomPersistJob) (r : Remote)
    → all is_persistable job.shapes ≡ true
    → ((stored job r).node.persist.rows job.room_id ≡ unique_shapes job.shapes)
      × ((stored job r).latest_persisted_version job.room_id ≡ job.version)
unfolding finish_persist_job persist_shapes schedule_history_snapshot
stored_rows job r ok = ground (arith, ok, nat_beq_iff job.room_id job.room_id)

abbrev waiting_for :
    ℕ → RoomPersistJob → Consumer Remote RoomPersistJob → Consumer Remote RoomPersistJob
waiting_for tag job c = record c { running = JsMap.set c.running tag job }

abbrev done : ℕ → RoomPersistJob → Consumer Remote RoomPersistJob → Consumer Remote RoomPersistJob
done tag job c = record c {
  state = stored job c.state;
  running = JsMap.delete c.running tag;
  acked = c.acked ++ tag ∷ [];
}

consume-waiting :
    (tag : ℕ) (job : RoomPersistJob) (c : Consumer Remote RoomPersistJob)
    → c.has_channel ≡ true
    → c.state.latest_persisted_version job.room_id < job.version
    → consume_message persist_handler tag (valid job) c ≡ waiting_for tag job c
unfolding consume_message is_known_version
consume-waiting tag job c open' newer = ground (arith, open')

end-done :
    (tag : ℕ) (job : RoomPersistJob) (c : Consumer Remote RoomPersistJob)
    → c.has_channel ≡ true
    → JsMap.get c.running tag ≡ some job
    → all is_persistable job.shapes ≡ true
    → end_message persist_handler tag true c ≡ done tag job c
unfolding end_message
end-done tag job c open' runs ok = rw (end_message, runs, finish_valid job c.state ok, open') refl

append_two : (xs : List ℕ) (a b : ℕ) → (xs ++ a ∷ []) ++ b ∷ [] ≡ xs ++ a ∷ b ∷ []
append_two [] a b = refl
append_two (x ∷ xs) a b = ap (λ r. x ∷ r) (append_two xs a b)

-- Two jobs are delivered, and the database takes the second one first.
abbrev pub overlap :
    (first second : ℕ)
    → RoomPersistJob
    → RoomPersistJob
    → Consumer Remote RoomPersistJob
    → Consumer Remote RoomPersistJob
overlap first second older newer c = end_message persist_handler first true (
    end_message persist_handler second true (
      consume_message persist_handler second (valid newer)
        (consume_message persist_handler first (valid older) c)))

-- If two persist jobs of a room, both newer than its last one and with valid shapes, are delivered
-- before either is done, and the database takes both, the newer one first, both are acknowledged
-- and the room's rows and version end as those of the older job.
pub overlap_goes_back :
    (first second : ℕ) (older newer : RoomPersistJob) (c : Consumer Remote RoomPersistJob)
    → c.has_channel ≡ true
    → IsMap c.running
    → first ≢ second
    → newer.room_id ≡ older.room_id
    → c.state.latest_persisted_version older.room_id < older.version
    → older.version < newer.version
    → all is_persistable older.shapes ≡ true
    → all is_persistable newer.shapes ≡ true
    → let c' = overlap first second older newer c in
      (c'.acked ≡ c.acked ++ second ∷ first ∷ [])
      × (c'.state.node.persist.rows older.room_id ≡ unique_shapes older.shapes)
      × (c'.state.latest_persisted_version older.room_id ≡ older.version)
overlap_goes_back first second older newer c open' distinct apart same late newest valid_older
      valid_newer =
    let c1 = waiting_for first older c in
    let c2 = waiting_for second newer c1 in
    let c3 = done second newer c2 in
    let other : (second == first) ≡ false = ground (arith, nat_key.matches_iff second first) in
    let newer_late : c.state.latest_persisted_version newer.room_id < newer.version =
      omega (arith, ap c.state.latest_persisted_version same) in
    let distinct1 = set-IsMap c.running first older distinct in
    let distinct2 = set-IsMap c1.running second newer distinct1 in
    let still_waiting : JsMap.get c3.running first ≡ some older = ground (
      arith,
      get-delete c2.running second first distinct2,
      get-set c1.running second first newer,
      get-set_self c.running first older,
    ) in
    let steps : overlap first second older newer c ≡ done first older c3 =
      ap
        (λ d. end_message persist_handler first true (
          end_message persist_handler second true
            (consume_message persist_handler second (valid newer) d)))
        (consume-waiting first older c open' late)
      ∙ ap (λ d. end_message persist_handler first true (end_message persist_handler second true d))
          (consume-waiting second newer c1 open' newer_late)
      ∙ ap (λ d. end_message persist_handler first true d)
          (end-done second newer c2 open' (get-set_self c1.running second newer) valid_newer)
      ∙ end-done first older c3 open' still_waiting valid_older in
    let rows = stored_rows older c3.state valid_older in
    subst⁻¹
      (λ (d : Consumer Remote RoomPersistJob).
        (d.acked ≡ c.acked ++ second ∷ first ∷ [])
        × (d.state.node.persist.rows older.room_id ≡ unique_shapes older.shapes)
        × (d.state.latest_persisted_version older.room_id ≡ older.version))
      steps (append_two c.acked second first, rows.0, rows.1)

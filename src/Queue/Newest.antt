-- ===== src/Queue/Newest.antt =====
-- The newest persist job of a room, and the jobs that come after it: startRoomPersistConsumer in
-- apps/ws-backend/src/index.ts.
use canvassync.Prelude.{
  ℕ, Bool, true, false, not, ◌||◌, some, List, [], ◌∷◌, all, leb, if◌then◌else◌, nat_key, ◌==◌, ◌≡◌,
  ◌∙◌, ap, arith, nat_beq_iff, foldl, All, Bool-cases, Option-cases, inl, inr,
}
use canvassync.JsMap
use canvassync.JsMap.{JsMap}
use canvassync.JsMap.Laws.{All-set, All-delete, All-get}
use canvassync.Ws.Persist.{persist_shapes, is_persistable, unique_shapes, schedule_history_snapshot}
use canvassync.Ws.CrossNode.{Remote}
use canvassync.Queue.Consumer.{
  Consumer, Content, not_json, invalid, valid, answer, read_content, consume_message, end_message,
}
use canvassync.Queue.PersistJobs.{
  RoomPersistJob, is_known_version, finish_persist_job, persist_handler, finish_valid, stored,
  stored_rows,
}

-- What happens to the consumer: a message comes, or the database answers for one that waits.
pub data JobEvent : Type 0 where
  delivered : (tag : ℕ) → Content RoomPersistJob → JobEvent
  ended : (tag : ℕ) (accepted : Bool) → JobEvent

unfoldable pub job_step : Consumer Remote RoomPersistJob → JobEvent → Consumer Remote RoomPersistJob
unfolding consume_message end_message
job_step c (delivered tag content) = consume_message persist_handler tag content c
job_step c (ended tag accepted) = end_message persist_handler tag accepted c

-- A job is of another room, or not newer than the version.
abbrev pub not_newer : (room version : ℕ) → Content RoomPersistJob → Bool
not_newer room version (valid job) = not (job.room_id == room) || leb job.version version
not_newer room version content = true

abbrev pub IsOld : (room version : ℕ) → JobEvent → Type 0
IsOld room version (delivered tag content) = not_newer room version content ≡ true
IsOld room version (ended tag accepted) = Unit

abbrev pub IsElsewhere : ℕ → ℕ × RoomPersistJob → Type 0
IsElsewhere room e = (e.1.room_id == room) ≡ false

-- The room's rows and version are the job's, and none of the room's jobs waits.
pub record IsLatest (job : RoomPersistJob) (c : Consumer Remote RoomPersistJob) : Type 0 where
  pub rows : c.state.node.persist.rows job.room_id ≡ unique_shapes job.shapes
  pub version : c.state.latest_persisted_version job.room_id ≡ job.version
  pub elsewhere : All (IsElsewhere job.room_id) c.running

-- The consumer with the handler's state, and a message that waits no more.
abbrev settled : ℕ → Remote → Consumer Remote RoomPersistJob → Consumer Remote RoomPersistJob
settled tag r c = record c { state = r; running = JsMap.delete c.running tag }

module _ (job : RoomPersistJob) where
  -- A job of the room that is not newer is known.
  elsewhere_or_known :
      (other : RoomPersistJob) (c : Consumer Remote RoomPersistJob)
      → not_newer job.room_id job.version (valid other) ≡ true
      → IsLatest job c
      → is_known_version other c.state ≡ false
      → (other.room_id == job.room_id) ≡ false
  unfolding is_known_version
  elsewhere_or_known other c old h new = elim (Bool-cases (other.room_id == job.room_id)) [
    | inr apart ↦ apart
    | inl same ↦
        let e : other.room_id ≡ job.room_id =
          (nat_key.matches_iff other.room_id job.room_id).0 same in
        ground (arith, old, same, new, ap c.state.latest_persisted_version e, h.version)
  ]

  read-IsLatest :
      (tag : ℕ) (content : Content RoomPersistJob) (c : Consumer Remote RoomPersistJob)
      → not_newer job.room_id job.version content ≡ true
      → IsLatest job c
      → IsLatest job (read_content persist_handler tag content c)
  read-IsLatest tag not_json c old h = record {
    rows = h.rows;
    version = h.version;
    elsewhere = h.elsewhere;
  }
  read-IsLatest tag invalid c old h = record {
    rows = h.rows;
    version = h.version;
    elsewhere = h.elsewhere;
  }
  read-IsLatest tag (valid other) c old h = elim (Bool-cases (is_known_version other c.state)) [
    | inl known ↦ rw known record { rows = h.rows; version = h.version; elsewhere = h.elsewhere }
    | inr new ↦ rw new record {
      rows = h.rows;
      version = h.version;
      elsewhere =
          All-set (IsElsewhere job.room_id) c.running tag other h.elsewhere
            (elsewhere_or_known other c old h new);
    }
  ]

  either-IsLatest :
      (b : Bool) (c d : Consumer Remote RoomPersistJob)
      → IsLatest job c
      → IsLatest job d
      → IsLatest job (if b then c else d)
  either-IsLatest true c d h h' = h
  either-IsLatest false c d h h' = h'

  delivered-IsLatest :
      (tag : ℕ) (content : Content RoomPersistJob) (c : Consumer Remote RoomPersistJob)
      → not_newer job.room_id job.version content ≡ true
      → IsLatest job c
      → IsLatest job (consume_message persist_handler tag content c)
  unfolding consume_message
  delivered-IsLatest tag content c old h =
      either-IsLatest (not c.has_channel) c (read_content persist_handler tag content c) h
        (read-IsLatest tag content c old h)

  finish_elsewhere :
      (accepted : Bool) (other : RoomPersistJob) (r : Remote)
      → (other.room_id == job.room_id) ≡ false
      → ((finish_persist_job accepted other r).1.node.persist.rows job.room_id
          ≡ r.node.persist.rows job.room_id)
        × ((finish_persist_job accepted other r).1.latest_persisted_version job.room_id
            ≡ r.latest_persisted_version job.room_id)
  unfolding finish_persist_job persist_shapes schedule_history_snapshot
  finish_elsewhere accepted other r apart =
      ground (arith, apart, nat_beq_iff job.room_id other.room_id)

  answer-IsLatest :
      (tag : ℕ) (ok : Bool) (c : Consumer Remote RoomPersistJob)
      → IsLatest job c
      → IsLatest job (answer tag ok c)
  answer-IsLatest tag ok c h = elim (Bool-cases c.has_channel) [
    | inr shut ↦ rw shut record { rows = h.rows; version = h.version; elsewhere = h.elsewhere }
    | inl open' ↦ rw open' (elim (Bool-cases ok) [
      | inl good ↦ rw good record { rows = h.rows; version = h.version; elsewhere = h.elsewhere }
      | inr bad ↦ rw bad record { rows = h.rows; version = h.version; elsewhere = h.elsewhere }
    ])
  ]

  ended-IsLatest :
      (tag : ℕ) (accepted : Bool) (c : Consumer Remote RoomPersistJob)
      → IsLatest job c
      → IsLatest job (end_message persist_handler tag accepted c)
  unfolding end_message
  ended-IsLatest tag accepted c h = elim (Option-cases (JsMap.get c.running tag)) [
    | inl absent ↦ rw (absent, end_message) h
    | inr (other, waits) ↦
        let apart = All-get (IsElsewhere job.room_id) c.running tag other h.elsewhere waits in
        let (same_rows, same_version) = finish_elsewhere accepted other c.state apart in
        rw (waits, end_message)
          (answer-IsLatest tag (finish_persist_job accepted other c.state).0
            (settled tag (finish_persist_job accepted other c.state).1 c)
            record {
              rows = same_rows ∙ h.rows;
              version = same_version ∙ h.version;
              elsewhere = All-delete (IsElsewhere job.room_id) c.running tag h.elsewhere;
            })
  ]

  steps-IsLatest :
      (events : List JobEvent) (c : Consumer Remote RoomPersistJob)
      → All (IsOld job.room_id job.version) events
      → IsLatest job c
      → IsLatest job (foldl job_step c events)
  unfolding job_step
  steps-IsLatest [] c old h = h
  steps-IsLatest (delivered tag content ∷ events) c (old, rest) h =
      steps-IsLatest events (consume_message persist_handler tag content c) rest
        (delivered-IsLatest tag content c old h)
  steps-IsLatest (ended tag accepted ∷ events) c (old, rest) h =
      steps-IsLatest events (end_message persist_handler tag accepted c) rest
        (ended-IsLatest tag accepted c h)

  -- A persist job with valid shapes waits for the database, and no other job of its room does.
  -- Once the database has taken it, whatever messages come and whatever waiting jobs end, well or
  -- badly and in whatever order, as long as the room's jobs among the messages are not newer, the
  -- room's rows and version stay those of the job, and none of the room's jobs waits.
  pub newest-IsLatest :
      (tag : ℕ) (c : Consumer Remote RoomPersistJob) (events : List JobEvent)
      → JsMap.get c.running tag ≡ some job
      → All (IsElsewhere job.room_id) (JsMap.delete c.running tag)
      → all is_persistable job.shapes ≡ true
      → All (IsOld job.room_id job.version) events
      → IsLatest job (foldl job_step (end_message persist_handler tag true c) events)
  unfolding end_message
  newest-IsLatest tag c events waits alone good old =
      let (rows, version) = stored_rows job c.state good in
      steps-IsLatest events (end_message persist_handler tag true c) old (
        rw (waits, finish_valid job c.state good, end_message)
          (answer-IsLatest tag true (settled tag (stored job c.state) c)
            record { rows = rows; version = version; elsewhere = alone }))

-- ===== src/Rooms/AiJobs.antt =====
-- The jobs of the AI worker in Redis: `generateAiCanvas`, `getAiGenerateStatus` and
-- `receiveAiResult` of apps/http-backend/src/controllers/room.controller.ts.
use Prim.Native.String.{◌++◌}
use canvassync.Prelude.{
  ℕ, String, Bool, false, ◌||◌, Option, none, some, List, [], ◌==◌, string_key, nat_key,
  if◌then◌else◌,
}
use canvassync.JsMap.{JsMap, get, set, delete}
use canvassync.JsValue.{JsValue}
use canvassync.Http.Request.{truthy}
use canvassync.Rooms.Reply.{Reply, done, api_error, ◌>>=◌, ◌>>◌, ensure, parsed, require_user_id}
use canvassync.Rooms.Database.{Database}
use canvassync.Rooms.Access.{has_room_access}

-- "pending", "done" and "error".
pub data AiJobStatus : Type 0 where
  pending finished failed : AiJobStatus

-- An entry as it stands in Redis. The time of its making is not read.
pub record AiJobEntry : Type 0 where
  pub status : AiJobStatus
  pub room_id : ℕ
  pub shapes : Option (List JsValue)
  pub summary : Option String
  pub error_message : Option String

-- The entries by their ids; the key puts `ai:job:` before an id. Redis drops an entry 300 seconds
-- after its last writing: that is the event `expire`.
abbrev pub AiJobs : Type 0
AiJobs = JsMap String AiJobEntry

abbrev pub initial_entry : ℕ → AiJobEntry
initial_entry room_id = record {
  status = pending;
  room_id = room_id;
  shapes = none;
  summary = none;
  error_message = none;
}

abbrev pub unpublished_entry : ℕ → AiJobEntry
unpublished_entry room_id = record (initial_entry room_id) {
  status = failed;
  error_message = some "Failed to enqueue AI job";
}

-- What the request says and what is found out for it: the kind of request, its prompt and the block
-- of the conversation before it, and the block of the sources, none if there are none or the search
-- for them fails.
pub record AiRequest : Type 0 where
  pub mode : String
  pub prompt : String
  pub history_block : String
  pub reference_block : Option String

abbrev pub with_reference : Option String → String → String
with_reference none prompt = prompt
with_reference (some block) prompt = block ++ prompt

-- The prompt that is published.
unfoldable pub grounded_prompt : AiRequest → String
grounded_prompt request =
    if request.mode == "summarize" || request.mode == "image"
    then request.prompt
    else request.history_block ++ with_reference request.reference_block request.prompt

-- The checks before a job is made.
unfoldable pub checked_request :
    Database
    → (user : Option String) (room_id : Option ℕ) (body : Option AiRequest) → Reply (ℕ × AiRequest)
checked_request db user room_id body = do
  room_id ← parsed room_id 400
  user_id ← require_user_id user
  ensure (has_room_access db room_id user_id) 403
  request ← parsed body 400
  done (room_id, request)

abbrev pub start_job :
    AiJobs
    → (job_id : String) (published : Bool) → Reply (ℕ × AiRequest)
    → AiJobs × Reply (String × String)
start_job jobs job_id published (api_error status) = (jobs, api_error status)
start_job jobs job_id published (done (room_id, request)) =
    let begun = set jobs job_id (initial_entry room_id) in
    if published
    then (begun, done (job_id, grounded_prompt request))
    else (set begun job_id (unpublished_entry room_id), api_error 503)

-- The jobs afterwards with the answer: the job and its prompt, or the status of the error.
-- `job_id` is `randomUUID()`, and `published` tells whether the queue took the job.
unfoldable pub generate_ai_canvas :
    Database
    → AiJobs
    → (job_id : String) (published : Bool) (user : Option String) (room_id : Option ℕ)
      (body : Option AiRequest)
    → AiJobs × Reply (String × String)
unfolding grounded_prompt checked_request
generate_ai_canvas db jobs job_id published user room_id body =
    start_job jobs job_id published (checked_request db user room_id body)

unfoldable pub get_ai_generate_status :
    Database
    → AiJobs
    → (user : Option String) (room_id : Option ℕ) (job_id : Option String) → Reply AiJobEntry
get_ai_generate_status db jobs user room_id job_id = do
  room_id ← parsed room_id 400
  job_id ← parsed job_id 400
  user_id ← require_user_id user
  ensure (has_room_access db room_id user_id) 403
  entry ← parsed (get jobs job_id) 404
  ensure (entry.room_id == room_id) 403
  done entry

-- The body of a result, each part none if it is not there, and the secret of its header.
pub record AiResult : Type 0 where
  pub secret : Option String
  pub job_id : Option String
  pub shapes : Option (List JsValue)
  pub summary : Option String
  pub error_message : Option String

abbrev list_or_empty : Option (List JsValue) → List JsValue
list_or_empty none = []
list_or_empty (some shapes) = shapes

abbrev summary_or : Option String → Option String → Option String
summary_or old none = old
summary_or old (some summary) = some summary

-- The entry that a result makes of an entry.
unfoldable pub with_result : AiResult → AiJobEntry → AiJobEntry
with_result result entry = elim (truthy result.error_message) [
  | some message ↦ record entry { status = failed; error_message = some message }
  | none ↦ record entry {
    status = finished;
    shapes = some (list_or_empty result.shapes);
    summary = summary_or entry.summary result.summary;
  }
]

abbrev pub same_secret : String → Option String → Bool
same_secret secret none = false
same_secret secret (some sent) = sent == secret

-- A result for a job that is not there is answered, and dropped.
abbrev pub keep_result : AiJobs → String → AiResult → Option AiJobEntry → AiJobs
keep_result jobs job_id result none = jobs
keep_result jobs job_id result (some entry) = set jobs job_id (with_result result entry)

-- `secret` is `INTERNAL_SECRET`.
unfoldable pub receive_ai_result : (secret : String) → AiJobs → AiResult → Reply AiJobs
unfolding with_result
receive_ai_result secret jobs result = do
  ensure (same_secret secret result.secret) 403
  job_id ← parsed result.job_id 400
  done (keep_result jobs job_id result (get jobs job_id))

-- What happens to the jobs.
pub data AiEvent : Type 0 where
  generate :
      (db : Database) (job_id : String) (published : Bool) (user : Option String)
      (room_id : Option ℕ) (body : Option AiRequest)
      → AiEvent
  receive : (result : AiResult) → AiEvent
  expire : (job_id : String) → AiEvent

abbrev pub jobs_after : AiJobs → Reply AiJobs → AiJobs
jobs_after jobs (done jobs') = jobs'
jobs_after jobs (api_error status) = jobs

unfoldable pub ai_step : (secret : String) → AiJobs → AiEvent → AiJobs
unfolding generate_ai_canvas receive_ai_result
ai_step secret jobs (generate db job_id published user room_id body) =
    (generate_ai_canvas db jobs job_id published user room_id body).0
ai_step secret jobs (receive result) = jobs_after jobs (receive_ai_result secret jobs result)
ai_step secret jobs (expire job_id) = delete jobs job_id

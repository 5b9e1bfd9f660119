-- ===== src/Rooms/Jobs.antt =====
-- Whose AI jobs a user is told about, over series of requests, results and expiries:
-- apps/http-backend/src/controllers/room.controller.ts.
use mathlib.Core.Path.{subst, subst⁻¹}
use canvassync.Prelude.{
  ℕ, String, Bool, true, false, ◌&&◌, Option, none, some, List, [], ◌∷◌, ◌≡◌, refl, inl, inr, any,
  All, All-impl, ◌==◌, string_key, nat_key, matches_refl, Option-cases, arith,
}
use canvassync.JsMap.{empty, get, set}
use canvassync.JsMap.Laws.{All-set, All-delete, All-get}
use canvassync.Http.Request.{truthy}
use canvassync.Rooms.Reply.{
  Reply, done, api_error, parsed, require_user_id, Returns, Returns-done, Returns->>=, Returns->>,
  done_lem, parsed-eq,
}
use canvassync.Rooms.Database.{Database}
use canvassync.Rooms.Access.{has_room_access}
use canvassync.Rooms.AiJobs.{
  AiJobEntry, AiJobs, AiRequest, AiResult, checked_request, start_job, generate_ai_canvas,
  get_ai_generate_status, with_result, keep_result, receive_ai_result, AiEvent, generate, receive,
  expire, jobs_after, ai_step, initial_entry, unpublished_entry, same_secret,
}

-- The jobs after a series of events, the last one first.
unfoldable pub ai_jobs : (secret : String) → List AiEvent → AiJobs
unfolding ai_step
ai_jobs secret [] = empty
ai_jobs secret (event ∷ past) = ai_step secret (ai_jobs secret past) event

abbrev is_for : ℕ → Reply (ℕ × AiRequest) → Bool
is_for room_id (done (r, request)) = r == room_id
is_for room_id (api_error status) = false

-- The event makes the job for the room: its request passes the checks.
abbrev pub starts : String → ℕ → AiEvent → Bool
starts job room_id (generate db job_id published user asked body) =
    job_id == job && is_for room_id (checked_request db user asked body)
starts job room_id (receive result) = false
starts job room_id (expire job_id) = false

abbrev Started : List AiEvent → String × AiJobEntry → Type 0
Started events e = any (starts e.0 e.1.room_id) events ≡ true

still-Started :
    (event : AiEvent) (past : List AiEvent) (e : String × AiJobEntry)
    → Started past e
    → Started (event ∷ past) e
still-Started event past e h = ground (arith, h)

start_job-Started :
    (jobs : AiJobs) (events : List AiEvent) (job_id : String) (published : Bool)
    (checked : Reply (ℕ × AiRequest))
    → ((r : ℕ) → is_for r checked ≡ true → any (starts job_id r) events ≡ true)
    → All (Started events) jobs
    → All (Started events) (start_job jobs job_id published checked).0
start_job-Started jobs events job_id published (api_error status) own h = h
start_job-Started jobs events job_id true (done (r, request)) own h =
    All-set (Started events) jobs job_id (initial_entry r) h (own r (matches_refl r))
start_job-Started jobs events job_id false (done (r, request)) own h =
    All-set (Started events) (set jobs job_id (initial_entry r)) job_id (unpublished_entry r)
      (All-set (Started events) jobs job_id (initial_entry r) h (own r (matches_refl r)))
      (own r (matches_refl r))

with_result-room :
    (result : AiResult) (entry : AiJobEntry) → (with_result result entry).room_id ≡ entry.room_id
unfolding with_result
with_result-room result entry = elim (Option-cases (truthy result.error_message)) [
  | inl e ↦ rw (e, with_result) refl
  | inr (m, e) ↦ rw (e, with_result) refl
]

keep_result-Started :
    (jobs : AiJobs) (events : List AiEvent) (job_id : String) (result : AiResult)
    (there : Option AiJobEntry)
    → get jobs job_id ≡ there
    → All (Started events) jobs
    → All (Started events) (keep_result jobs job_id result there)
keep_result-Started jobs events job_id result none e h = h
keep_result-Started jobs events job_id result (some entry) e h =
    All-set (Started events) jobs job_id (with_result result entry) h (
      subst⁻¹ (λ r. any (starts job_id r) events ≡ true) (with_result-room result entry)
        (All-get (Started events) jobs job_id entry h e))

receive-Started :
    (secret : String) (jobs : AiJobs) (events : List AiEvent) (result : AiResult)
    → All (Started events) jobs
    → Returns (All (Started events)) (receive_ai_result secret jobs result)
unfolding receive_ai_result
receive-Started secret jobs events result h =
    Returns->> (same_secret secret result.secret) 403 λ known.
      Returns->>= (parsed result.job_id 400) λ job_id e.
        done_lem {a = keep_result jobs job_id result (get jobs job_id)}
          (keep_result-Started jobs events job_id result (get jobs job_id) refl h)

after-Started :
    (jobs : AiJobs) (events : List AiEvent) (m : Reply AiJobs)
    → All (Started events) jobs
    → Returns (All (Started events)) m
    → All (Started events) (jobs_after jobs m)
after-Started jobs events (done jobs') h kept = Returns-done kept refl
after-Started jobs events (api_error status) h kept = h

own_start :
    (db : Database) (job_id : String) (published : Bool) (user : Option String) (asked : Option ℕ)
    (body : Option AiRequest) (past : List AiEvent) (r : ℕ)
    → is_for r (checked_request db user asked body) ≡ true
    → any (starts job_id r) (generate db job_id published user asked body ∷ past) ≡ true
own_start db job_id published user asked body past r h = rw (matches_refl job_id, h) refl

ai_step-Started :
    (secret : String) (jobs : AiJobs) (event : AiEvent) (past : List AiEvent)
    → All (Started (event ∷ past)) jobs
    → All (Started (event ∷ past)) (ai_step secret jobs event)
unfolding ai_step generate_ai_canvas
ai_step-Started secret jobs (generate db job_id published user asked body) past h =
    start_job-Started jobs (generate db job_id published user asked body ∷ past) job_id published
      (checked_request db user asked body) (own_start db job_id published user asked body past) h
ai_step-Started secret jobs (receive result) past h =
    after-Started jobs (receive result ∷ past) (receive_ai_result secret jobs result) h
      (receive-Started secret jobs (receive result ∷ past) result h)
ai_step-Started secret jobs (expire job_id) past h =
    All-delete (Started (expire job_id ∷ past)) jobs job_id h

ai_jobs-Started :
    (secret : String) (events : List AiEvent) → All (Started events) (ai_jobs secret events)
unfolding ai_jobs
ai_jobs-Started secret [] = tt
ai_jobs-Started secret (event ∷ past) = ai_step-Started secret (ai_jobs secret past) event past (
    All-impl (Started past) (Started (event ∷ past)) (ai_jobs secret past)
      (still-Started event past) (ai_jobs-Started secret past))

-- What a user who is answered may be told.
pub record IsOwnJob (secret : String) (events : List AiEvent) (db : Database) (user : Option String)
    (room_id : ℕ) (job : String) (entry : AiJobEntry) : Type 0 where
  pub current : get (ai_jobs secret events) job ≡ some entry
  pub asked_here : any (starts job room_id) events ≡ true
  pub user_id : String
  pub signed_in : require_user_id user ≡ done user_id
  pub enters : has_room_access db room_id user_id ≡ true

status-IsOwnJob :
    (secret : String) (events : List AiEvent) (db : Database) (user : Option String) (room_id : ℕ)
    (job : String)
    → Returns
        (IsOwnJob secret events db user room_id job)
        (get_ai_generate_status db (ai_jobs secret events) user (some room_id) (some job))
unfolding get_ai_generate_status
status-IsOwnJob secret events db user room_id job = Returns->>= (require_user_id user) λ user_id e.
    Returns->> (has_room_access db room_id user_id) 403 λ enters.
      Returns->>= (parsed (get (ai_jobs secret events) job) 404) λ entry e'.
        let there = parsed-eq (get (ai_jobs secret events) job) 404 e' in
        Returns->> (entry.room_id == room_id) 403 λ same. done_lem {a = entry} record {
          current = there;
          asked_here =
              subst (λ r. any (starts job r) events ≡ true)
                ((nat_key.matches_iff entry.room_id room_id).0 same)
                (All-get (Started events) (ai_jobs secret events) job entry
                  (ai_jobs-Started secret events) there);
          user_id = user_id;
          signed_in = e;
          enters = enters;
        }

-- Whatever series of AI requests, results and expiries, from an empty store, a status that is
-- answered is the current entry of the job, a checked request for that very room has started it,
-- and the user is signed in and has access to the room.
pub get_ai_generate_status-IsOwnJob :
    (secret : String) (events : List AiEvent) (db : Database) (user : Option String) (room_id : ℕ)
    (job : String) (entry : AiJobEntry)
    → get_ai_generate_status db (ai_jobs secret events) user (some room_id) (some job) ≡ done entry
    → IsOwnJob secret events db user room_id job entry
get_ai_generate_status-IsOwnJob secret events db user room_id job entry e =
    Returns-done (status-IsOwnJob secret events db user room_id job) e

-- ===== src/Http/Idempotency/Middleware.antt =====
-- idempotency.middleware.ts: the middleware and the callbacks of the response that it hooks into.
-- What runs between two `await`s is an event. A promise is the number of the request that settles
-- it; `waiting` says which request awaits which.
use Prim.Native.String.{◌++◌}
use canvassync.Prelude.{
  ℕ, ◌+◌, String, Bool, true, false, not, ◌||◌, Option, none, some, List, [], ◌∷◌, map, select,
  if◌then◌else◌, ◌==◌, nat_key, string_key,
}
use mathlib.Core.List.{◌++◌ as ◌++ᴸ◌}
use canvassync.JsMap
use canvassync.JsMap.{JsMap}
use canvassync.JsValue.{JsValue}
use canvassync.Http.Request.{Request, get_actor_scope, get_route_key, trim, or_text}
use canvassync.Http.Idempotency.Store.{
  BodyKind, send_body, HeaderValue, CachedResponse, PendingEntry, IdempotencyState,
  sanitize_headers, is_replayable_status, prune_expired_entries,
}
use canvassync.Http.Idempotency.Fingerprint.{hash_request_body}

pub record IdempotencyConfig : Type 0 where
  pub max_entries : ℕ
  pub window_ms : ℕ
  pub json : JsValue → String
  pub sha256 : String → String

-- What the closures of a request that goes on to its handler share. `captured` closes the exchange:
-- the response is written out, the connection has broken, or the handler has thrown. After a break
-- the handler runs on.
pub record Exchange (B : Type 0) : Type 0 where
  pub store_key : String
  pub fingerprint : String
  pub captured_body : Option B
  pub captured_body_kind : BodyKind
  pub captured : Bool

-- What a request meets: its handler, an earlier response, an ApiError, or the error that a handler
-- threw.
pub data Reply (B : Type 0) : Type 0 where
  passed_on : Reply B
  replayed : CachedResponse B → Reply B
  refused : (status_code : ℕ) → Reply B
  rethrown : Reply B

pub record Server (B : Type 0) : Type 0 where
  pub store : JsMap String (IdempotencyState B)
  pub exchanges : JsMap ℕ (Exchange B)
  pub waiting : JsMap ℕ ℕ
  pub replies : List (ℕ × Reply B)
  pub arrivals : ℕ

-- What the store says of a key.
pub data Found (B : Type 0) : Type 0 where
  cached_found : CachedResponse B → Found B
  pending_found : PendingEntry → Found B
  nothing_found : Found B

abbrev is_mutating : String → Bool
is_mutating method = method == "POST" || method == "PUT" || method == "PATCH" || method == "DELETE"

module _ {B : Type 0} where
  -- `existingState?.cached`, then `existingState?.pending`
  abbrev pub found : Option (IdempotencyState B) → Found B
  found none = nothing_found
  found (some st) = elim st.cached [
    | none ↦ elim st.pending [ none ↦ nothing_found | some p ↦ pending_found p ]
    | some c ↦ cached_found c
  ]

  abbrev pub reply : ℕ → Reply B → Server B → Server B
  reply id r s = record s { replies = s.replies ++ᴸ (id, r) ∷ [] }

  abbrev pub pending_state : ℕ → String → IdempotencyState B
  pending_state id fingerprint = record {
    pending = some (record { fingerprint = fingerprint; promise = id });
    cached = none;
  }

  abbrev pub new_exchange : String → String → Exchange B
  new_exchange store_key fingerprint = record {
    store_key = store_key;
    fingerprint = fingerprint;
    captured_body = none;
    captured_body_kind = send_body;
    captured = false;
  }

  -- idempotencyStore.set(storeKey, { pending }), with the closures that follow, and next().
  unfoldable pub start_exchange : (id : ℕ) (store_key fingerprint : String) → Server B → Server B
  start_exchange id store_key fingerprint s = reply id passed_on (record s {
    store = JsMap.set s.store store_key (pending_state id fingerprint);
    exchanges = JsMap.set s.exchanges id (new_exchange store_key fingerprint);
  })

  unfoldable pub answer_found :
      Found B → (id : ℕ) (store_key fingerprint : String) → Server B → Server B
  unfolding start_exchange
  answer_found (cached_found c) id store_key fingerprint s =
      if not (c.fingerprint == fingerprint)
      then reply id (refused 409) s
      else reply id (replayed c) s
  answer_found (pending_found p) id store_key fingerprint s =
      if not (p.fingerprint == fingerprint)
      then reply id (refused 409) s
      else record s { waiting = JsMap.set s.waiting id p.promise }
  answer_found nothing_found id store_key fingerprint s = start_exchange id store_key fingerprint s

  -- resolve(cached) or reject(error): who waits goes on with the reply.
  unfoldable pub settle : (promise : ℕ) → Reply B → Server B → Server B
  settle promise r s = record s {
    waiting = select (λ w. not (w.1 == promise)) s.waiting;
    replies = s.replies ++ᴸ map (λ w. (w.0, r)) (select (λ w. w.1 == promise) s.waiting);
  }

  abbrev pub capture : ℕ → Exchange B → Server B → Server B
  capture id x s = record s { exchanges = JsMap.set s.exchanges id (record x { captured = true }) }

  -- The end of an exchange without a response to keep.
  unfoldable pub abandon : (id : ℕ) → Exchange B → Reply B → Server B → Server B
  unfolding settle
  abandon id x r s =
      let s' = capture id x s in
      settle id r (record s' { store = JsMap.delete s'.store x.store_key })

  abbrev pub cached_state : CachedResponse B → IdempotencyState B
  cached_state c = record { pending = none; cached = some c }

  unfoldable pub keep : (id : ℕ) → Exchange B → CachedResponse B → Server B → Server B
  unfolding settle
  keep id x c s =
      let s' = capture id x s in
      settle id (replayed c) (record s' { store = JsMap.set s'.store x.store_key (cached_state c) })

  unfoldable pub fail_pending : (id : ℕ) → Reply B → Server B → Server B
  unfolding abandon
  fail_pending id r s = elim (JsMap.get s.exchanges id) [
    | none ↦ s
    | some x ↦ if x.captured then s else abandon id x r s
  ]

  -- res.json, res.send and res.end, as the middleware replaces them.
  unfoldable pub capture_body : (id : ℕ) → BodyKind → B → Server B → Server B
  capture_body id kind body s = elim (JsMap.get s.exchanges id) [
    | none ↦ s
    | some x ↦ record s {
      exchanges =
          JsMap.set s.exchanges id
            (record x { captured_body = some body; captured_body_kind = kind });
    }
  ]

-- The request asks for idempotency.
abbrev pub asks : Request → Bool
asks req =
    if is_mutating req.method then not (trim (or_text req.idempotency_key "") == "") else false

unfoldable pub store_key_of : Request → String
store_key_of req =
    get_route_key req ++ ":" ++ get_actor_scope req ++ ":" ++ trim (or_text req.idempotency_key "")

module _ (cfg : IdempotencyConfig) where
  unfoldable pub fingerprint_of : Request → String
  unfolding hash_request_body
  fingerprint_of req = hash_request_body cfg.json cfg.sha256 req.body

pub data Event (B : Type 0) : Type 0 where
  arrived : (now : ℕ) → Request → Event B
  wrote : (id : ℕ) → BodyKind → B → Event B
  finished : (id now status_code : ℕ) → List (String × HeaderValue) → Event B
  closed : (id : ℕ) (writable_ended : Bool) → Event B
  threw : (id : ℕ) → Event B

module _ {B : Type 0} (cfg : IdempotencyConfig) where
  -- A request that asks for idempotency.
  unfoldable pub look_up : (now id : ℕ) → Request → Server B → Server B
  unfolding answer_found prune_expired_entries
  look_up now id req s =
      let store = prune_expired_entries cfg.max_entries now s.store in
      answer_found (found (JsMap.get store (store_key_of req))) id (store_key_of req)
        (fingerprint_of cfg req) (record s { store = store })

  -- The request gets the next number.
  unfoldable pub idempotency_middleware : (now : ℕ) → Request → Server B → Server B
  unfolding look_up
  idempotency_middleware now req s =
      let s' : Server B = record s { arrivals = s.arrivals + 1 } in
      if asks req then look_up now s.arrivals req s' else reply s.arrivals passed_on s'

  abbrev pub response_of :
      (now status_code : ℕ) → List (String × HeaderValue) → Exchange B → CachedResponse B
  response_of now status_code headers x = record {
    status_code = status_code;
    headers = sanitize_headers headers;
    body = x.captured_body;
    body_kind = x.captured_body_kind;
    fingerprint = x.fingerprint;
    expires_at = now + cfg.window_ms;
  }

  -- The response is written out: `res.once("finish", finalize)`.
  unfoldable pub finalize :
      (id now status_code : ℕ) → List (String × HeaderValue) → Server B → Server B
  unfolding abandon keep is_replayable_status
  finalize id now status_code headers s = elim (JsMap.get s.exchanges id) [
    | none ↦ s
    | some x ↦
        if x.captured
        then s
        else if not (is_replayable_status status_code)
        then abandon id x (refused status_code) s
        else keep id x (response_of now status_code headers x) s
  ]

  unfoldable pub step : Server B → Event B → Server B
  unfolding idempotency_middleware capture_body finalize fail_pending
  step s (arrived now req) = idempotency_middleware now req s
  step s (wrote id kind body) = capture_body id kind body s
  step s (finished id now status_code headers) = finalize id now status_code headers s
  step s (closed id writable_ended) =
      if not writable_ended then fail_pending id (refused 499) s else s
  step s (threw id) = fail_pending id rethrown s

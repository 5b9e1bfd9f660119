-- ===== src/Db/Breaker.antt =====
-- packages/db/src/index.ts: the circuit breaker. Time is an argument; what runs at once in the
-- service is a series of `BreakerEvent`s, each of which the code handles without an `await`.
use canvassync.Prelude.{
  ℕ, ◌+◌, ◌-◌, Bool, true, false, not, List, [], ◌∷◌, ◌++◌, length, leb, if◌then◌else◌, none, some,
  nat_key,
}
use canvassync.JsMap
use canvassync.JsMap.{JsMap}
use canvassync.Db.Errors.{DbConfig, DbError, is_retryable_db_error}

pub data CircuitBreakerState : Type 0 where
  closed opened half_open : CircuitBreakerState

pub record Breaker : Type 0 where
  pub state : CircuitBreakerState
  pub open_until_ms : ℕ
  pub half_open_success_count : ℕ
  pub half_open_in_flight : Bool
  pub failures : List ℕ

-- The breaker and the calls that run, each with whether it is a probe. Calls are numbered as they
-- come.
pub record Service : Type 0 where
  pub breaker : Breaker
  pub running : JsMap ℕ Bool
  pub arrivals : ℕ

-- `oldestTimestamp >= nowMs - window` keeps the rest.
unfoldable pub prune_failure_window : (window_ms now : ℕ) → List ℕ → List ℕ
prune_failure_window window_ms now [] = []
prune_failure_window window_ms now (oldest ∷ rest) =
    let pruned = prune_failure_window window_ms now rest in
    if leb now (oldest + window_ms) then oldest ∷ rest else pruned

unfoldable pub close_circuit : Breaker → Breaker
close_circuit b = record {
  state = closed;
  open_until_ms = 0;
  half_open_success_count = 0;
  half_open_in_flight = false;
  failures = [];
}

unfoldable pub start_half_open : Breaker → Breaker
start_half_open b = record b {
  state = half_open;
  half_open_success_count = 0;
  half_open_in_flight = false;
}

-- A request goes on, as a probe or not, or meets a DbCircuitOpenError with its hint.
pub data Admission : Type 0 where
  admitted : (probe : Bool) → Admission
  refused : (retry_after_ms : ℕ) → Admission

abbrev probe_or_refuse : Breaker → Admission × Breaker
probe_or_refuse b =
    if b.half_open_in_flight
    then (refused 250, b)
    else (admitted true, record b { half_open_in_flight = true })

abbrev check_state : ℕ → CircuitBreakerState → Breaker → Admission × Breaker
check_state now closed b = (admitted false, b)
check_state now half_open b = probe_or_refuse b
check_state now opened b =
    if leb b.open_until_ms now
    then probe_or_refuse (start_half_open b)
    else (refused (b.open_until_ms - now), b)

abbrev is_half_open : CircuitBreakerState → Bool
is_half_open half_open = true
is_half_open _ = false

module _ (cfg : DbConfig) where
  unfoldable pub open_circuit : (now : ℕ) → Breaker → Breaker
  open_circuit now b = record b {
    state = opened;
    open_until_ms = now + cfg.open_ms;
    half_open_success_count = 0;
    half_open_in_flight = false;
  }

  unfoldable pub check_circuit_before_request : (now : ℕ) → Breaker → Admission × Breaker
  unfolding start_half_open
  check_circuit_before_request now b =
      if cfg.enabled then check_state now b.state b else (admitted false, b)

  unfoldable pub on_circuit_success : (was_half_open : Bool) → Breaker → Breaker
  unfolding close_circuit
  on_circuit_success was_half_open b =
      let b' : Breaker = record b {
        half_open_in_flight = false;
        half_open_success_count = b.half_open_success_count + 1;
      } in
      if not cfg.enabled
      then b
      else if was_half_open
      then (if leb cfg.half_open_success_threshold b'.half_open_success_count
          then close_circuit b'
          else b')
      else b

  -- A transient failure outside half-open mode.
  unfoldable pub count_failure : (now : ℕ) → Breaker → Breaker
  unfolding open_circuit prune_failure_window
  count_failure now b =
      let failures = prune_failure_window cfg.window_ms now b.failures ++ now ∷ [] in
      let b' : Breaker = record b { failures = failures } in
      if leb cfg.failure_threshold (length failures) then open_circuit now b' else b'

  -- What onCircuitFailure does once it knows whether the error is transient.
  unfoldable pub answer_failure : (now : ℕ) (transient was_half_open : Bool) → Breaker → Breaker
  unfolding open_circuit count_failure
  answer_failure now transient was_half_open b =
      if not cfg.enabled
      then b
      else if not transient
      then (if was_half_open then record b { half_open_in_flight = false } else b)
      else if was_half_open
      then open_circuit now b
      else if is_half_open b.state
      then open_circuit now b
      else count_failure now b

  unfoldable pub on_circuit_failure :
      (now : ℕ) → DbError → (was_half_open : Bool) → Breaker → Breaker
  unfolding is_retryable_db_error answer_failure
  on_circuit_failure now e was_half_open b =
      answer_failure now (is_retryable_db_error e) was_half_open b

  -- A call of the service asks to go on, or one that went on ends.
  pub data BreakerEvent : Type 0 where
    requested : (now : ℕ) → BreakerEvent
    succeeded : (id : ℕ) → BreakerEvent
    failed : (now : ℕ) → DbError → (id : ℕ) → BreakerEvent

  -- A refused call throws, and does not run.
  abbrev pub admit : Admission × Breaker → Service → Service
  admit (refused ms, b) s = record s { breaker = b; arrivals = s.arrivals + 1 }
  admit (admitted probe, b) s = record s {
    breaker = b;
    running = JsMap.set s.running s.arrivals probe;
    arrivals = s.arrivals + 1;
  }

  -- The end of a call that runs, with whether it is a probe.
  abbrev pub end_call : (Bool → Breaker → Breaker) → ℕ → Service → Service
  end_call answer id s = elim (JsMap.get s.running id) [
    | none ↦ s
    | some probe ↦ record s {
      breaker = answer probe s.breaker;
      running = JsMap.delete s.running id;
    }
  ]

  unfoldable pub step : Service → BreakerEvent → Service
  unfolding check_circuit_before_request on_circuit_success on_circuit_failure
  step s (requested now) = admit (check_circuit_before_request now s.breaker) s
  step s (succeeded id) = end_call on_circuit_success id s
  step s (failed now e id) = end_call (on_circuit_failure now e) id s

-- ===== src/Db/Invariant.antt =====
-- packages/db/src/index.ts: what holds of the breaker between two events.
use canvassync.Prelude.{
  ℕ, ◌<◌, Bool, false, List, [], ◌∷◌, ◌≡◌, refl, arith, foldl, length, nat_key, Option-cases, inl,
  inr,
}
use canvassync.JsMap
use canvassync.JsMap.{JsMap}
use canvassync.Db.Errors.{DbConfig, DbError}
use canvassync.Db.Errors.{is_retryable_db_error}
use canvassync.Db.Breaker.{
  answer_failure, Breaker, closed, opened, BreakerEvent, requested, succeeded, failed, step,
  Service, Admission, admitted, refused, admit, end_call, check_circuit_before_request,
  on_circuit_success, on_circuit_failure, count_failure, open_circuit,
}

abbrev pub initial : Breaker
initial = record {
  state = closed;
  open_until_ms = 0;
  half_open_success_count = 0;
  half_open_in_flight = false;
  failures = [];
}

abbrev pub idle_service : Service
idle_service = record { breaker = initial; running = JsMap.empty; arrivals = 0 }

module _ (cfg : DbConfig) where
  -- A closed breaker has not counted enough failures to open; a probe is in flight in half-open
  -- mode alone; the successes are too few to close.
  pub record IsSound (b : Breaker) : Type 0 where
    pub few_failures : b.state ≡ closed → length b.failures < cfg.failure_threshold
    pub closed_idle : b.state ≡ closed → b.half_open_in_flight ≡ false
    pub opened_idle : b.state ≡ opened → b.half_open_in_flight ≡ false
    pub few_successes : b.half_open_success_count < cfg.half_open_success_threshold

module _ (cfg : DbConfig) (failing : 0 < cfg.failure_threshold)
    (succeeding : 0 < cfg.half_open_success_threshold) where
  count_failure-IsSound :
      (now : ℕ) (b : Breaker) → IsSound cfg b → IsSound cfg (count_failure cfg now b)
  unfolding count_failure open_circuit
  count_failure-IsSound now b v = ground (arith, v)

  requested-IsSound :
      (b : Breaker) (now : ℕ)
      → IsSound cfg b
      → IsSound cfg (check_circuit_before_request cfg now b).1
  unfolding check_circuit_before_request
  requested-IsSound b now v = ground (arith)

  succeeded-IsSound :
      (b : Breaker) (probe : Bool) → IsSound cfg b → IsSound cfg (on_circuit_success cfg probe b)
  unfolding on_circuit_success
  succeeded-IsSound b probe v = ground (arith)

  answer_failure-IsSound :
      (now : ℕ) (transient probe : Bool) (b : Breaker)
      → IsSound cfg b
      → IsSound cfg (answer_failure cfg now transient probe b)
  unfolding answer_failure open_circuit
  answer_failure-IsSound now transient probe b v = ground (arith, count_failure-IsSound now b v)

  failed-IsSound :
      (b : Breaker) (now : ℕ) (e : DbError) (probe : Bool)
      → IsSound cfg b
      → IsSound cfg (on_circuit_failure cfg now e probe b)
  unfolding on_circuit_failure
  failed-IsSound b now e probe v = answer_failure-IsSound now (is_retryable_db_error e) probe b v

  admit-IsSound :
      (s : Service) (r : Admission × Breaker)
      → IsSound cfg r.1
      → IsSound cfg (admit cfg r s).breaker
  admit-IsSound s (refused ms, b) v = v
  admit-IsSound s (admitted probe, b) v = v

  end_call-IsSound :
      (answer : Bool → Breaker → Breaker) (id : ℕ) (s : Service)
      → ((probe : Bool) → IsSound cfg (answer probe s.breaker))
      → IsSound cfg s.breaker
      → IsSound cfg (end_call cfg answer id s).breaker
  end_call-IsSound answer id s answered v = elim (Option-cases (JsMap.get s.running id)) [
    | inl absent ↦ rw (absent, end_call) v
    | inr (probe, runs) ↦ rw (runs, end_call) (answered probe)
  ]

  step-IsSound :
      (s : Service) (e : BreakerEvent cfg)
      → IsSound cfg s.breaker
      → IsSound cfg (step cfg s e).breaker
  unfolding step
  step-IsSound s (requested now) v =
      admit-IsSound s (check_circuit_before_request cfg now s.breaker)
        (requested-IsSound s.breaker now v)
  step-IsSound s (succeeded id) v =
      end_call-IsSound (on_circuit_success cfg) id s (λ probe. succeeded-IsSound s.breaker probe v)
        v
  step-IsSound s (failed now e id) v =
      end_call-IsSound (on_circuit_failure cfg now e) id s
        (λ probe. failed-IsSound s.breaker now e probe v) v

  run-IsSound :
      (s : Service) (es : List (BreakerEvent cfg))
      → IsSound cfg s.breaker
      → IsSound cfg (foldl (step cfg) s es).breaker
  run-IsSound s [] v = v
  run-IsSound s (e ∷ es) v = run-IsSound (step cfg s e) es (step-IsSound s e v)

  -- With positive thresholds, after any series of requests and of ends of the calls that went on,
  -- the breaker, if closed, has counted too few failures to open; a probe is in flight in half-open
  -- mode alone; and the successes are too few to close.
  pub initial-IsSound :
      (es : List (BreakerEvent cfg)) → IsSound cfg (foldl (step cfg) idle_service es).breaker
  initial-IsSound es = run-IsSound idle_service es (record {
    few_failures = λ e. failing;
    closed_idle = λ e. refl;
    opened_idle = λ e. refl;
    few_successes = succeeding;
  })

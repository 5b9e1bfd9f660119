-- ===== src/Db/Tests.antt =====
-- packages/db/src/index.ts: concrete runs of the retry and of the circuit breaker.
use canvassync.Prelude.{
  ℕ, ◌≡◌, refl, true, false, none, some, List, [], ◌∷◌, arith, foldl, ltb, if◌then◌else◌,
}
use canvassync.JsMap
use canvassync.Db.Errors.{DbConfig, DbError, is_retryable_db_error}
use canvassync.Db.Breaker.{Breaker, opened, BreakerEvent, requested, failed, step}
use canvassync.Db.Retry.{Outcome, ok, error, Run, run_with_db_retry, IsRun, run_with_db_retry-IsRun}
use canvassync.Db.Invariant.{initial, idle_service}
use canvassync.Db.Recovery.{all_return, all_return-initial}

-- The defaults of the source.
abbrev defaults : DbConfig
defaults = record {
  enabled = true;
  failure_threshold = 5;
  window_ms = 60000;
  open_ms = 30000;
  half_open_success_threshold = 2;
  retry_attempts = 3;
  retry_base_delay_ms = 75;
}

abbrev too_many : DbError
too_many = record { code = some "53300"; network_message = false; cause_code = none }

-- Fails twice, then gives 7.
abbrev third_time : ℕ → Outcome ℕ
third_time n = if ltb n 3 then error too_many else ok 7

third_time_run :
    run_with_db_retry defaults third_time
    ≡ some (record { outcome = ok 7; calls = 3; slept_ms = 225 })
unfolding run_with_db_retry is_retryable_db_error
third_time_run = refl

run_with_db_retry-IsRun_example :
    (run : Run ℕ) × (run_with_db_retry defaults third_time ≡ some run)
    × IsRun defaults third_time 1 0 run
run_with_db_retry-IsRun_example = run_with_db_retry-IsRun defaults third_time

-- Five calls go on, and all fail.
abbrev outage : List (BreakerEvent defaults)
outage =
    requested 0
    ∷ requested 0
    ∷ requested 0
    ∷ requested 0
    ∷ requested 0
    ∷ failed 1 too_many 0
    ∷ failed 2 too_many 1
    ∷ failed 3 too_many 2
    ∷ failed 4 too_many 3
    ∷ failed 5 too_many 4
    ∷ []

abbrev after_outage : Breaker
after_outage = record {
  state = opened;
  open_until_ms = 30005;
  half_open_success_count = 0;
  half_open_in_flight = false;
  failures = 1 ∷ 2 ∷ 3 ∷ 4 ∷ 5 ∷ [];
}

outage_opens : (foldl (step defaults) idle_service outage).breaker ≡ after_outage
unfolding step JsMap.get JsMap.set JsMap.delete
outage_opens = refl

-- Both calls make three attempts.
all_return-initial_example :
    all_return defaults third_time ((30005, 30300) ∷ (30400, 30700) ∷ []) after_outage
    ≡ some initial
all_return-initial_example =
    all_return-initial defaults refl third_time
      (record { outcome = ok 7; calls = 3; slept_ms = 225 }) 7 third_time_run refl 30005 30300
      ((30400, 30700) ∷ []) after_outage refl (omega arith) refl

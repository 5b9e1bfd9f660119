-- ===== src/Db/Recovery.antt =====
-- packages/db/src/index.ts: failing fast, opening and recovering.
use canvassync.Prelude.{
  Option, none, some, if◌then◌else◌, ℕ, suc, ◌+◌, ◌-◌, ◌≤◌, ◌<◌, true, false, List, [], ◌∷◌, ◌≡◌,
  ◌∙◌, refl, arith, length, leb,
}
use canvassync.Db.Errors.{DbConfig}
use canvassync.Db.Breaker.{
  Breaker, opened, half_open, check_circuit_before_request, on_circuit_success, start_half_open,
}
use canvassync.Db.Invariant.{initial}
use canvassync.Db.Retry.{Outcome, ok, Run, run_with_db_retry}
use canvassync.Db.Protection.{returned, threw, circuit_open, settle, run_with_db_protection}

module _ (cfg : DbConfig) (on : cfg.enabled ≡ true) where
  -- While an enabled breaker is open and its pause lasts, a request meets the error with the rest
  -- of the pause, whatever the operation is, and the breaker stays as it is.
  pub run_with_db_protection_opened {ℓ} :
      {A : Type ℓ} (now later : ℕ) (operation : ℕ → Outcome A) (b : Breaker)
      → b.state ≡ opened
      → now < b.open_until_ms
      → run_with_db_protection cfg now later operation b
        ≡ some (circuit_open (b.open_until_ms - now), b)
  unfolding run_with_db_protection check_circuit_before_request
  run_with_db_protection_opened now later operation b is_open early = ground arith

  -- A probe that succeeds, in half-open mode with no other one in flight.
  protected_half_open {ℓ} :
      {A : Type ℓ} (now later : ℕ) (operation : ℕ → Outcome A) (run : Run A) (a : A) (b : Breaker)
      → run_with_db_retry cfg operation ≡ some run
      → run.outcome ≡ ok a
      → b.state ≡ half_open
      → b.half_open_in_flight ≡ false
      → run_with_db_protection cfg now later operation b
        ≡ some (
          returned a,
          if leb cfg.half_open_success_threshold (b.half_open_success_count + 1)
              then initial
              else record b { half_open_success_count = b.half_open_success_count + 1 },
        )
  unfolding run_with_db_protection check_circuit_before_request on_circuit_success settle
  protected_half_open now later operation run a b ran good half idle = ground (arith, ran, good)

  protected_opened {ℓ} :
      {A : Type ℓ} (now later : ℕ) (operation : ℕ → Outcome A) (b : Breaker)
      → b.state ≡ opened
      → b.open_until_ms ≤ now
      → run_with_db_protection cfg now later operation b
        ≡ run_with_db_protection cfg now later operation (start_half_open b)
  unfolding run_with_db_protection check_circuit_before_request start_half_open
  protected_opened now later operation b is_open late = ground arith

-- Calls one after the other, each with its start and its end: none if one of them does not return.
unfoldable pub all_return {ℓ} :
    {A : Type ℓ} → DbConfig → (ℕ → Outcome A) → List (ℕ × ℕ) → Breaker → Option Breaker
unfolding run_with_db_protection
all_return cfg operation [] b = some b
all_return cfg operation ((now, later) ∷ times) b =
    elim (run_with_db_protection cfg now later operation b) [
      | none ↦ none
      | some (answer, b') ↦ elim answer [
        | returned a ↦ all_return cfg operation times b'
        | threw e ↦ none
        | circuit_open ms ↦ none
      ]
    ]

module _ {ℓ} {A : Type ℓ} (cfg : DbConfig) (on : cfg.enabled ≡ true) (operation : ℕ → Outcome A)
    (run : Run A) (a : A) (ran : run_with_db_retry cfg operation ≡ some run)
    (good : run.outcome ≡ ok a) where
  return_more :
      (now later : ℕ) (times : List (ℕ × ℕ)) (b : Breaker)
      → b.state ≡ half_open
      → b.half_open_in_flight ≡ false
      → b.half_open_success_count + 1 < cfg.half_open_success_threshold
      → all_return cfg operation ((now, later) ∷ times) b
        ≡ all_return cfg operation times
            (record b { half_open_success_count = b.half_open_success_count + 1 })
  unfolding all_return
  return_more now later times b half idle more =
      ground (arith, protected_half_open cfg on now later operation run a b ran good half idle)

  return_last :
      (now later : ℕ) (b : Breaker)
      → b.state ≡ half_open
      → b.half_open_in_flight ≡ false
      → b.half_open_success_count + 1 ≡ cfg.half_open_success_threshold
      → all_return cfg operation ((now, later) ∷ []) b ≡ some initial
  unfolding all_return
  return_last now later b half idle enough =
      ground (arith, protected_half_open cfg on now later operation run a b ran good half idle)

  return_opened :
      (now later : ℕ) (times : List (ℕ × ℕ)) (b : Breaker)
      → b.state ≡ opened
      → b.open_until_ms ≤ now
      → all_return cfg operation ((now, later) ∷ times) b
        ≡ all_return cfg operation ((now, later) ∷ times) (start_half_open b)
  unfolding all_return
  return_opened now later times b is_open late =
      rw (protected_opened cfg on now later operation b is_open late, all_return) refl

  return_half_open :
      (times : List (ℕ × ℕ)) (b : Breaker)
      → b.state ≡ half_open
      → b.half_open_in_flight ≡ false
      → b.half_open_success_count < cfg.half_open_success_threshold
      → b.half_open_success_count + length times ≡ cfg.half_open_success_threshold
      → all_return cfg operation times b ≡ some initial
  return_half_open [] b half idle few enough = absurd (omega arith)
  return_half_open ((now, later) ∷ []) b half idle few enough =
      return_last now later b half idle (omega arith)
  return_half_open ((now, later) ∷ t ∷ times) b half idle few enough =
      return_more now later (t ∷ times) b half idle (omega arith)
      ∙ return_half_open (t ∷ times)
          (record b { half_open_success_count = b.half_open_success_count + 1 }) half idle
          (omega arith) (omega arith)

  -- If the breaker is enabled and open and its pause is over, as many calls of runWithDbProtection
  -- as the threshold says, one after the other and each with an operation that succeeds in the
  -- permitted attempts, all return a result, none being refused, and bring the breaker back to its
  -- initial state.
  pub all_return-initial :
      (now later : ℕ) (times : List (ℕ × ℕ)) (b : Breaker)
      → b.state ≡ opened
      → b.open_until_ms ≤ now
      → suc (length times) ≡ cfg.half_open_success_threshold
      → all_return cfg operation ((now, later) ∷ times) b ≡ some initial
  unfolding start_half_open
  all_return-initial now later times b is_open late enough =
      return_opened now later times b is_open late
      ∙ return_half_open ((now, later) ∷ times) (start_half_open b) refl refl (omega arith)
          (omega arith)

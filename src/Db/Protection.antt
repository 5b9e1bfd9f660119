-- ===== src/Db/Protection.antt =====
-- packages/db/src/index.ts: runWithDbProtection, with nothing else running in the service between
-- its start at `now` and its end at `later`.
use canvassync.Prelude.{ℕ, Option, none, some, Bool}
use canvassync.Db.Errors.{DbConfig, DbError}
use canvassync.Db.Breaker.{
  Breaker, admitted, refused, check_circuit_before_request, on_circuit_success, on_circuit_failure,
}
use canvassync.Db.Retry.{Outcome, ok, error, run_with_db_retry}

pub data Protected {ℓ} (A : Type ℓ) : Type ℓ where
  returned : A → Protected A
  threw : DbError → Protected A
  circuit_open : (retry_after_ms : ℕ) → Protected A

module _ {ℓ} {A : Type ℓ} (cfg : DbConfig) where
  unfoldable pub settle : (later : ℕ) → Bool → Outcome A → Breaker → Protected A × Breaker
  unfolding on_circuit_success on_circuit_failure
  settle later probe (ok a) b = (returned a, on_circuit_success cfg probe b)
  settle later probe (error e) b = (threw e, on_circuit_failure cfg later e probe b)

  -- none is out of fuel.
  unfoldable pub run_with_db_protection :
      (now later : ℕ) → (ℕ → Outcome A) → Breaker → Option (Protected A × Breaker)
  unfolding check_circuit_before_request settle run_with_db_retry
  run_with_db_protection now later operation b =
      let (admission, b') = check_circuit_before_request cfg now b in
      elim admission [
        | refused ms ↦ some (circuit_open ms, b')
        | admitted probe ↦ elim (run_with_db_retry cfg operation) [
          | none ↦ none
          | some run ↦ some (settle later probe run.outcome b')
        ]
      ]

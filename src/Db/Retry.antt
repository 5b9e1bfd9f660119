-- ===== src/Db/Retry.antt =====
-- packages/db/src/index.ts: runWithDbRetry and runWithDbProtection. `operation n` is what the n-th
-- call of the operation gives; a call that never settles is not modelled.
use mathlib.Core.Path.{subst⁻¹}
use native.Mathlib.Nat.{two-pow-succ}
use canvassync.Prelude.{
  ℕ, zero, suc, ◌+◌, ◌-◌, ◌*◌, ◌^◌, ◌≤◌, ◌<◌, max, Bool, true, false, not, ◌||◌, Option, none, some,
  leb, if◌then◌else◌, ◌≡◌, refl, arith, Bool-cases, inl, inr, nat_beq, nat_beq_iff,
}
use canvassync.Db.Errors.{DbConfig, DbError, is_retryable_db_error}

pub data Outcome {ℓ} (A : Type ℓ) : Type ℓ where
  ok : A → Outcome A
  error : DbError → Outcome A

-- What a run comes to: its outcome, the number of the last call, and the time that it slept.
pub record Run {ℓ} (A : Type ℓ) : Type ℓ where
  pub outcome : Outcome A
  pub calls : ℕ
  pub slept_ms : ℕ

doubled :
    (attempt base : ℕ)
    → 0 < attempt
    → base * 2 ^ (attempt + 1 - 1) ≡ base * 2 ^ (attempt - 1) + base * 2 ^ (attempt - 1)
doubled zero base pos = absurd (omega arith)
doubled (suc n) base pos =
    let same : suc n + 1 - 1 ≡ suc n = omega arith in
    let less : suc n - 1 ≡ n = omega arith in rw (same, less) (rw (two-pow-succ n) (grind arith))

module _ {ℓ} {A : Type ℓ} (cfg : DbConfig) (operation : ℕ → Outcome A) where
  abbrev finished : ℕ → ℕ → Outcome A → Run A
  finished attempt slept o = record { outcome = o; calls = attempt; slept_ms = slept }

  -- `attempt >= DEFAULT_RETRY_ATTEMPTS || !isRetryableDbError(error)`
  abbrev pub gives_up : ℕ → DbError → Bool
  gives_up attempt e = leb cfg.retry_attempts attempt || not (is_retryable_db_error e)

  -- The fuel counts the calls; none is out of fuel.
  unfoldable pub retry_from : ℕ → (attempt slept : ℕ) → Option (Run A)
  retry_from zero attempt slept = none
  retry_from (suc fuel) attempt slept =
      let again =
        retry_from fuel (attempt + 1) (slept + cfg.retry_base_delay_ms * 2 ^ (attempt - 1)) in
      elim (operation attempt) [
        | ok a ↦ some (finished attempt slept (ok a))
        | error e ↦ if gives_up attempt e then some (finished attempt slept (error e)) else again
      ]

  -- `runWithDbRetry(operation)`, with fuel for every attempt.
  unfoldable pub run_with_db_retry : Option (Run A)
  unfolding retry_from
  run_with_db_retry = retry_from (max 1 cfg.retry_attempts) 1 0

  -- A call that the code answers with another one.
  abbrev pub IsRetried : ℕ → Type ℓ
  IsRetried k = (e : DbError) × (operation k ≡ error e) × (gives_up k e ≡ false)

  -- The last call gives the outcome, and the code does not answer it with another one.
  abbrev pub IsLast : ℕ → Outcome A → Type 0
  IsLast k (ok a) = Unit
  IsLast k (error e) = gives_up k e ≡ true

  -- What a run from this attempt on comes to.
  pub record IsRun (first slept : ℕ) (run : Run A) : Type ℓ where
    pub given : operation run.calls ≡ run.outcome
    pub last : IsLast run.calls run.outcome
    pub started : first ≤ run.calls
    pub bounded : run.calls ≤ max first cfg.retry_attempts
    pub waited :
        run.slept_ms + cfg.retry_base_delay_ms * 2 ^ (first - 1)
        ≡ slept + cfg.retry_base_delay_ms * 2 ^ (run.calls - 1)
    pub earlier : (k : ℕ) → first ≤ k → k < run.calls → IsRetried k

  abbrev Settles : ℕ → ℕ → ℕ → Type ℓ
  Settles fuel attempt slept =
      (run : Run A) × (retry_from fuel attempt slept ≡ some run) × IsRun attempt slept run

  stop_here :
      (attempt slept : ℕ) (o : Outcome A)
      → operation attempt ≡ o
      → IsLast attempt o
      → IsRun attempt slept (finished attempt slept o)
  stop_here attempt slept o e last = record {
    given = e;
    last = last;
    started = omega arith;
    bounded = ground (arith, max);
    waited = refl;
    earlier = λ k h l. absurd (omega arith);
  }

  once_more :
      (attempt slept : ℕ) (run : Run A)
      → 0 < attempt
      → IsRetried attempt
      → attempt < cfg.retry_attempts
      → IsRun (attempt + 1) (slept + cfg.retry_base_delay_ms * 2 ^ (attempt - 1)) run
      → IsRun attempt slept run
  once_more attempt slept run pos retried more r = record {
    given = r.given;
    last = r.last;
    started = omega (arith, r.started);
    bounded = ground (arith, max, r.bounded);
    waited = omega (arith, r.waited, doubled attempt cfg.retry_base_delay_ms pos);
    earlier = λ k h l. elim (Bool-cases (nat_beq k attempt)) [
      | inl same ↦ subst⁻¹ IsRetried ((nat_beq_iff k attempt).0 same) retried
      | inr later ↦ r.earlier k (ground arith) l
    ];
  }

  settles :
      (fuel attempt slept : ℕ)
      → 0 < attempt
      → (attempt < cfg.retry_attempts
          → Settles fuel (attempt + 1) (slept + cfg.retry_base_delay_ms * 2 ^ (attempt - 1)))
      → (o : Outcome A) → operation attempt ≡ o
      → Settles (suc fuel) attempt slept
  unfolding retry_from
  settles fuel attempt slept pos again (ok a) e =
      (finished attempt slept (ok a), rw (retry_from, e), stop_here attempt slept (ok a) e tt)
  settles fuel attempt slept pos again (error f) e = elim (Bool-cases (gives_up attempt f)) [
    | inl stop ↦ (
      finished attempt slept (error f),
      rw (retry_from, e, stop),
      stop_here attempt slept (error f) e stop,
    )
    | inr more ↦
        let left : attempt < cfg.retry_attempts = ground arith in
        let (run, is_run, r) = again left in
        (run, rw (retry_from, e, more) is_run, once_more attempt slept run pos (f, e, more) left r)
  ]

  retry_from-IsRun :
      (fuel attempt slept : ℕ)
      → 0 < attempt
      → max attempt cfg.retry_attempts < attempt + fuel
      → Settles fuel attempt slept
  retry_from-IsRun zero attempt slept pos enough = absurd (ground (arith, max))
  retry_from-IsRun (suc fuel) attempt slept pos enough =
      settles fuel attempt slept pos
        (λ left. retry_from-IsRun fuel (attempt + 1) _ (omega arith) (ground (arith, max)))
        (operation attempt) refl

  -- runWithDbRetry ends: the calls are at most the permitted attempts, and at least one; every
  -- call but the last failed with a transient error; the last gave what is returned, and is not
  -- one to repeat; the pauses add up to base * (2 ^ (calls - 1) - 1).
  pub run_with_db_retry-IsRun : (run : Run A) × (run_with_db_retry ≡ some run) × IsRun 1 0 run
  unfolding run_with_db_retry
  run_with_db_retry-IsRun =
      retry_from-IsRun (max 1 cfg.retry_attempts) 1 0 (omega arith) (omega arith)

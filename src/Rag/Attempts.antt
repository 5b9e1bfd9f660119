-- ===== src/Rag/Attempts.antt =====
-- How often `withModelFallback` of apps/http-backend/src/utils/rag.ts calls the models, and when it
-- gives up.
use canvassync.Prelude.{ℕ, ◌+◌, ◌≤◌, String, ◌≡◌, if◌then◌else◌, arith}
use canvassync.Rag.Retry.{
  Outcome, returned, failed, is_transient, is_fallback_worthy, with_retry, with_model_fallback,
}

abbrev pub main_model : String
main_model = "gemini-flash-latest"

abbrev pub lite_model : String
lite_model = "gemini-flash-lite-latest"

module _ {ℓ} {A : Type ℓ} where
  -- Two attempts: one call if it answers or its failure is final, else the second one decides.
  abbrev pub two_attempts : Outcome A → Outcome A → Outcome A
  two_attempts (returned a) second = returned a
  two_attempts (failed f) second = if is_transient f then second else failed f

  with_retry_two :
      (call : ℕ → Outcome A) (n : ℕ)
      → ((with_retry call n 1).0 ≡ two_attempts (call n) (call (n + 1)))
        × (n + 1 ≤ (with_retry call n 1).1)
        × ((with_retry call n 1).1 ≤ n + 2)
  unfolding with_retry
  with_retry_two call n = (ground arith, ground arith, ground arith)

  -- What two models come to.
  abbrev pub two_models : Outcome A → Outcome A → Outcome A
  two_models (returned a) second = returned a
  two_models (failed f) second = if is_fallback_worthy f then second else failed f

  -- How many calls two attempts make, by how the first one ends.
  abbrev pub calls_made : Outcome A → ℕ
  calls_made (returned a) = 1
  calls_made (failed f) = if is_transient f then 2 else 1

  with_retry_calls :
      (call : ℕ → Outcome A) (n : ℕ) → (with_retry call n 1).1 ≡ n + calls_made (call n)
  unfolding with_retry
  with_retry_calls call n = ground arith

  -- withModelFallback ends as two attempts with the main model do if they answer or fail for good,
  -- and else as two attempts with the lite model: the second attempt decides where the first fails
  -- transiently. It makes at least one call and at most four.
  pub with_model_fallback_attempts :
      (call : String → ℕ → Outcome A)
      → let n = calls_made (call main_model 0) in
        ((with_model_fallback call).0
          ≡ two_models
              (two_attempts (call main_model 0) (call main_model 1))
              (two_attempts (call lite_model n) (call lite_model (n + 1))))
        × (1 ≤ (with_model_fallback call).1)
        × ((with_model_fallback call).1 ≤ 4)
  unfolding with_model_fallback
  with_model_fallback_attempts call =
      let n = (with_retry (call main_model) 0 1).1 in
      let (first, low, high) = with_retry_two (call main_model) 0 in
      let (second, low', high') = with_retry_two (call lite_model) n in
      let counted : n ≡ calls_made (call main_model 0) =
        ground (arith, with_retry_calls (call main_model) 0) in
      (
        rw (← counted) (ground (arith, first, second)),
        ground (arith, low, low'),
        ground (arith, low, high, low', high'),
      )

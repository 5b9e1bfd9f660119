-- ===== src/Rag/Retry.antt =====
-- Calls of the language models of apps/http-backend/src/utils/rag.ts: `withRetry`,
-- `withModelFallback` and `modelConfig`.
use canvassync.Prelude.{
  ℕ, zero, suc, ◌+◌, String, Bool, true, false, not, ◌||◌, Option, none, some, List, [], ◌∷◌, leb,
  nat_beq, if◌then◌else◌,
}

-- What is read of the error of a call.
pub record Failure : Type 0 where
  pub status : Option ℕ
  pub is_syntax_error : Bool

-- How a promise ends.
pub data Outcome {ℓ} (A : Type ℓ) : Type ℓ where
  returned : A → Outcome A
  failed : Failure → Outcome A

-- status === undefined || status === 429 || status >= 500
abbrev pub is_overload : Option ℕ → Bool
is_overload none = true
is_overload (some status) = nat_beq status 429 || leb 500 status

abbrev pub is_transient : Failure → Bool
is_transient f = is_overload f.status || f.is_syntax_error

abbrev pub is_missing : Option ℕ → Bool
is_missing none = false
is_missing (some status) = nat_beq status 404

abbrev pub is_fallback_worthy : Failure → Bool
is_fallback_worthy f = is_overload f.status || is_missing f.status

module _ {ℓ} {A : Type ℓ} where
  -- `call n` is how the n-th call ends; `more` is the number of attempts left after this one. The
  -- result comes with the number of the next call.
  unfoldable pub with_retry : (call : ℕ → Outcome A) (n more : ℕ) → Outcome A × ℕ
  with_retry call n zero = (call n, n + 1)
  with_retry call n (suc more) =
      let rest = with_retry call (n + 1) more in
      elim (call n) [
        | returned a ↦ (returned a, n + 1)
        | failed f ↦ if not (is_transient f) then (failed f, n + 1) else rest
      ]

  -- The loop over the models, after the error `last`.
  unfoldable pub try_models :
      (call : String → ℕ → Outcome A) (n : ℕ) → List String → (last : Failure) → Outcome A × ℕ
  unfolding with_retry
  try_models call n [] last = (failed last, n)
  try_models call n (model ∷ models) last =
      let (outcome, next) = with_retry (call model) n 1 in
      elim outcome [
        | returned a ↦ (returned a, next)
        | failed f ↦ elim (is_fallback_worthy f) [
          | true ↦ try_models call next models f
          | false ↦ (failed f, next)
        ]
      ]

abbrev pub text_models : List String
text_models = "gemini-flash-latest" ∷ "gemini-flash-lite-latest" ∷ []

-- `lastError` before the loop.
abbrev pub no_failure : Failure
no_failure = record { status = none; is_syntax_error = false }

unfoldable pub with_model_fallback {ℓ} : {A : Type ℓ} → (String → ℕ → Outcome A) → Outcome A × ℕ
unfolding try_models
with_model_fallback call = try_models call 0 text_models no_failure

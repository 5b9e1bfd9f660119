-- ===== src/Db/Errors.antt =====
-- packages/db/src/index.ts: the settings, and which errors are transient.
use canvassync.Prelude.{
  ℕ, String, Bool, false, ◌||◌, Option, none, some, List, [], ◌∷◌, any, ◌==◌, string_key,
}

-- The constants that the environment sets.
pub record DbConfig : Type 0 where
  pub enabled : Bool
  pub failure_threshold : ℕ
  pub window_ms : ℕ
  pub open_ms : ℕ
  pub half_open_success_threshold : ℕ
  pub retry_attempts : ℕ
  pub retry_base_delay_ms : ℕ

-- An error as the classification reads it: its codes where they are texts, and whether the regular
-- expression, which is the language's, matches its message.
pub record DbError : Type 0 where
  pub code : Option String
  pub network_message : Bool
  pub cause_code : Option String

abbrev pub retryable_prisma_codes : List String
retryable_prisma_codes = "P1001" ∷ "P1002" ∷ "P1008" ∷ "P1017" ∷ "P2024" ∷ []

abbrev pub retryable_pg_codes : List String
retryable_pg_codes = "40001" ∷ "40P01" ∷ "57P01" ∷ "57P02" ∷ "57P03" ∷ "53300" ∷ []

abbrev is_in : List String → Option String → Bool
is_in codes none = false
is_in codes (some code) = any (λ c. c == code) codes

unfoldable pub is_retryable_db_error : DbError → Bool
is_retryable_db_error e =
    (is_in retryable_prisma_codes e.code || is_in retryable_pg_codes e.code)
    || e.network_message
    || is_in retryable_pg_codes e.cause_code

-- ===== src/Rag/Tests.antt =====
-- Runs of apps/http-backend/src/utils/rag.ts at concrete texts and answers.
use canvassync.Prelude.{
  ◌==◌, string_key, if◌then◌else◌, ℕ, ◌+◌, ◌≤◌, String, false, Option, none, some, List, [], ◌∷◌,
  ◌≡◌, refl, arith,
}
use canvassync.JsMap.{size, get, set}
use canvassync.Rag.Text.{trim}
use canvassync.Rag.Chunking.{chunk_text, clean_text}
use canvassync.Rag.Windows.{pieces}
use canvassync.Rag.Cover.{Covers, chunk_text-Covers}
use canvassync.Rag.Retry.{Outcome, returned, failed, with_model_fallback}
use canvassync.Rag.Attempts.{
  main_model, lite_model, two_attempts, two_models, calls_made, with_model_fallback_attempts,
}
use canvassync.Rag.Cache.{embed_query, query_cache, query_cache_bounded}

-- "a \r\nb"
abbrev note : List ℕ
note = 97 ∷ 32 ∷ 13 ∷ 10 ∷ 98 ∷ []

note_clean : clean_text note ≡ 97 ∷ 10 ∷ 98 ∷ []
unfolding clean_text trim
note_clean = refl

note_pieces : chunk_text 9 note ≡ some ((97 ∷ 10 ∷ 98 ∷ []) ∷ [])
unfolding chunk_text trim
note_pieces = refl

chunk_text-Covers_example :
    (ws : List (ℕ × ℕ)) × (chunk_text 9 note ≡ some (pieces (clean_text note) ws))
    × Covers (clean_text note) 0 ws
unfolding clean_text trim
chunk_text-Covers_example = chunk_text-Covers 9 note (omega arith)

-- The main model is out of quota, and the lite one answers.
abbrev out_of_quota : String → ℕ → Outcome String
out_of_quota model n =
    if model == main_model
    then failed (record { status = some 429; is_syntax_error = false })
    else returned "ok"

fallback_answers : with_model_fallback out_of_quota ≡ (returned "ok", 3)
unfolding with_model_fallback
fallback_answers = refl

with_model_fallback_attempts_example :
    let n = calls_made (out_of_quota main_model 0) in
    ((with_model_fallback out_of_quota).0
      ≡ two_models
          (two_attempts (out_of_quota main_model 0) (out_of_quota main_model 1))
          (two_attempts (out_of_quota lite_model n) (out_of_quota lite_model (n + 1))))
    × (1 ≤ (with_model_fallback out_of_quota).1)
    × ((with_model_fallback out_of_quota).1 ≤ 4)
with_model_fallback_attempts_example = with_model_fallback_attempts out_of_quota

abbrev asked_before : List (String × Option ℕ)
asked_before = ("cats", some 7) ∷ ("dogs", none) ∷ []

query_cache_bounded_example :
    (size (query_cache asked_before) ≤ 200)
    × (embed_query (embed_query (query_cache asked_before) "cats" none).1 "cats" (some 9)
        ≡ (some 7, (embed_query (query_cache asked_before) "cats" none).1))
unfolding embed_query query_cache get set size
query_cache_bounded_example = query_cache_bounded asked_before "cats" none (some 9) 7 refl

-- ===== src/Rag/Chunking.antt =====
-- `chunkText` of apps/http-backend/src/utils/rag.ts.
use canvassync.Prelude.{
  ℕ, zero, suc, ◌+◌, ◌-◌, max, min, Bool, ◌&&◌, ◌||◌, Option, none, some, List, [], ◌∷◌, length,
  ltb, leb, nat_beq, if◌then◌else◌,
}
use canvassync.Rag.Text.{slice, last_index_of, trim}
use mathlib.Core.Option

abbrev pub chunk_size : ℕ
chunk_size = 1000

abbrev pub chunk_overlap : ℕ
chunk_overlap = 150

-- A position that is not there does not pass the test that follows, nor does 0.
abbrev pub position : Option ℕ → ℕ
position none = 0
position (some i) = i

-- The last paragraph, sentence or line that ends in the window.
unfoldable pub break_at : List ℕ → ℕ
break_at window = max (position (last_index_of (10 ∷ 10 ∷ []) window)) (
    max (position (last_index_of (46 ∷ 32 ∷ []) window))
      (position (last_index_of (10 ∷ []) window)))

-- Where the piece that starts at `start` ends.
unfoldable pub chunk_end : List ℕ → (start : ℕ) → ℕ
chunk_end clean start =
    let end = min (start + chunk_size) (length clean) in
    let at = break_at (slice start end clean) in
    if ltb end (length clean) && ltb 500 at then start + at + 1 else end

abbrev pub next_start : (start end : ℕ) → ℕ
next_start start end = max (end - chunk_overlap) (start + 1)

abbrev pub push_piece : List ℕ → List (List ℕ) → List (List ℕ)
push_piece [] chunks = chunks
push_piece (c ∷ piece) chunks = (c ∷ piece) ∷ chunks

-- The loop, on fuel: none if the fuel runs out.
unfoldable pub chunk_loop : (fuel : ℕ) → List ℕ → (start : ℕ) → Option (List (List ℕ))
unfolding chunk_end
chunk_loop zero clean start = none
chunk_loop (suc fuel) clean start =
    let end = chunk_end clean start in
    let piece = trim (slice start end clean) in
    let rest = chunk_loop fuel clean (next_start start end) in
    if leb (length clean) start
    then some []
    else if leb (length clean) end
    then some (push_piece piece [])
    else Option.map (push_piece piece) rest

-- text.replace(/\r\n/g, "\n")
unfoldable pub unix_lines : List ℕ → List ℕ
unix_lines [] = []
unix_lines (c ∷ []) = c ∷ []
unix_lines (c ∷ d ∷ text) =
    let rest = unix_lines (d ∷ text) in if nat_beq c 13 && nat_beq d 10 then rest else c ∷ rest

abbrev is_blank : ℕ → Bool
is_blank c = nat_beq c 32 || nat_beq c 9

abbrev drop_before_line : ℕ → List ℕ → List ℕ
drop_before_line c [] = c ∷ []
drop_before_line c (d ∷ rest) = if is_blank c && nat_beq d 10 then d ∷ rest else c ∷ d ∷ rest

-- text.replace(/[ \t]+\n/g, "\n")
unfoldable pub trim_lines : List ℕ → List ℕ
trim_lines [] = []
trim_lines (c ∷ text) = drop_before_line c (trim_lines text)

unfoldable pub clean_text : List ℕ → List ℕ
unfolding unix_lines trim_lines
clean_text text = trim (trim_lines (unix_lines text))

-- An empty text has no pieces: the loop does not run.
unfoldable pub chunk_text : (fuel : ℕ) → List ℕ → Option (List (List ℕ))
unfolding chunk_loop clean_text
chunk_text fuel text = chunk_loop fuel (clean_text text) 0

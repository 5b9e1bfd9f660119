-- ===== src/Rag/Windows.antt =====
-- The parts of the text that `chunkText` of apps/http-backend/src/utils/rag.ts goes through.
use mathlib.Core.Option
use canvassync.Prelude.{
  ℕ, zero, suc, ◌+◌, ◌-◌, ◌<◌, ◌≤◌, min, Option, none, some, List, [], ◌∷◌, ◌≡◌, refl, inl, inr,
  length, leb, if◌then◌else◌, Bool-cases, Option-cases, arith,
}
use canvassync.Rag.Text.{take, drop, slice, last_index_of, last_index_of-lt, trim}
use canvassync.Rag.Chunking.{break_at, chunk_end, next_start, push_piece, chunk_loop, position}

length-take : (n : ℕ) (text : List ℕ) → length (take n text) ≤ n
length-take zero text = omega arith
length-take (suc n) [] = omega arith
length-take (suc n) (c ∷ text) = omega (arith, length-take n text)

position-le :
    (pattern window : List ℕ) (n : ℕ)
    → length window ≤ n
    → 0 < n
    → position (last_index_of pattern window) < n
position-le pattern window n h pos = elim (Option-cases (last_index_of pattern window)) [
  | inl e ↦ rw e pos
  | inr (i, e) ↦ rw e (omega (arith, last_index_of-lt pattern window i e))
]

break_at-lt : (window : List ℕ) (n : ℕ) → length window ≤ n → 0 < n → break_at window < n
unfolding break_at
break_at-lt window n h pos = ground (
  arith,
  position-le (10 ∷ 10 ∷ []) window n h pos,
  position-le (46 ∷ 32 ∷ []) window n h pos,
  position-le (10 ∷ []) window n h pos,
)

-- A piece is not empty, stays in the text, has at most 1000 units, and more than 500 unless it is
-- the last one.
pub record EndsWell (clean : List ℕ) (start end : ℕ) : Type 0 where
  pub moves : start < end
  pub inside : end ≤ length clean
  pub small : end ≤ start + 1000
  pub large : end < length clean → start + 502 ≤ end

pub chunk_end-EndsWell :
    (clean : List ℕ) (start : ℕ)
    → start < length clean
    → EndsWell clean start (chunk_end clean start)
unfolding chunk_end
chunk_end-EndsWell clean start h = ground (
  arith,
  break_at-lt (slice start (min (start + 1000) (length clean)) clean)
      (min (start + 1000) (length clean) - start),
  length-take (min (start + 1000) (length clean) - start) (drop start clean),
)

-- The starts and the ends of the pieces.
unfoldable pub windows : (fuel : ℕ) → List ℕ → (start : ℕ) → Option (List (ℕ × ℕ))
windows zero clean start = none
windows (suc fuel) clean start =
    let end = chunk_end clean start in
    let rest = windows fuel clean (next_start start end) in
    if leb (length clean) start
    then some []
    else if leb (length clean) end
    then some ((start, end) ∷ [])
    else Option.map (λ ws. (start, end) ∷ ws) rest

-- The pieces of the text in some windows: those that are blank are left out.
unfoldable pub pieces : List ℕ → List (ℕ × ℕ) → List (List ℕ)
pieces clean [] = []
pieces clean ((start, end) ∷ ws) = push_piece (trim (slice start end clean)) (pieces clean ws)

push-map :
    (clean piece : List ℕ) (start end : ℕ) (rest : Option (List (List ℕ)))
    (ws : Option (List (ℕ × ℕ)))
    → piece ≡ trim (slice start end clean)
    → rest ≡ Option.map (pieces clean) ws
    → Option.map (push_piece piece) rest
      ≡ Option.map (pieces clean) (Option.map (λ w. (start, end) ∷ w) ws)
unfolding pieces
push-map clean piece start end rest none same e = rw e refl
push-map clean piece start end rest (some w) same e = rw (e, same) refl

pub chunk_loop-windows :
    (fuel : ℕ) (clean : List ℕ) (start : ℕ)
    → chunk_loop fuel clean start ≡ Option.map (pieces clean) (windows fuel clean start)
unfolding chunk_loop windows pieces
chunk_loop-windows zero clean start = refl
chunk_loop-windows (suc fuel) clean start = elim (Bool-cases (leb (length clean) start)) [
  | inl over ↦ rw over refl
  | inr more ↦ rw more (elim (Bool-cases (leb (length clean) (chunk_end clean start))) [
    | inl last ↦ rw last refl
    | inr on ↦ rw on (
        push-map clean _ start (chunk_end clean start) _ _ refl
          (chunk_loop-windows fuel clean (next_start start (chunk_end clean start))))
  ])
]

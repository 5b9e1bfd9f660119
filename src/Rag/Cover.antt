-- ===== src/Rag/Cover.antt =====
-- What the pieces of `chunkText` of apps/http-backend/src/utils/rag.ts cover of the text, and how
-- many there are.
use mathlib.Core.Option
use canvassync.Prelude.{
  ℕ, zero, suc, ◌+◌, ◌-◌, ◌*◌, ◌<◌, ◌≤◌, Bool, true, ◌&&◌, some, List, [], ◌∷◌, ◌≡◌, refl, ap, ◌∙◌,
  inl, inr, length, any, All, ltb, leb, leb→le, Bool-cases, arith,
}
use canvassync.Rag.Chunking.{chunk_end, next_start, chunk_text, clean_text}
use canvassync.Rag.Windows.{EndsWell, chunk_end-EndsWell, windows, pieces, chunk_loop-windows}

abbrev pub holds : ℕ → ℕ × ℕ → Bool
holds p (start, end) = leb start p && ltb p end

-- A series of windows through the text from `start`: each position lies in one, none is longer
-- than 1000 units, and there is at most one for each 352 units that are left, rounded up.
pub record Covers (clean : List ℕ) (start : ℕ) (ws : List (ℕ × ℕ)) : Type 0 where
  pub covered : (p : ℕ) → start ≤ p → p < length clean → any (holds p) ws ≡ true
  pub bounded : All (λ w. (w.0 < w.1) × (w.1 ≤ length clean) × (w.1 ≤ w.0 + 1000)) ws
  pub few : 352 * length ws ≤ (length clean - start) + 351

next_start-le :
    (clean : List ℕ) (start : ℕ)
    → EndsWell clean start (chunk_end clean start)
    → (next_start start (chunk_end clean start) ≤ chunk_end clean start)
      × (start < next_start start (chunk_end clean start))
      × (chunk_end clean start < length clean
          → start + 352 ≤ next_start start (chunk_end clean start))
next_start-le clean start w =
    (ground (arith, w.moves), ground arith, λ h. ground (arith, w.large h))

still_few :
    (clean : List ℕ) (start end next n : ℕ)
    → 352 * n ≤ (length clean - next) + 351
    → start + 352 ≤ next
    → next ≤ end
    → end < length clean
    → 352 * suc n ≤ (length clean - start) + 351
still_few clean start end next n few far back more = omega arith

-- The whole loop from a start, with the windows that it goes through.
windows-Covers :
    (fuel : ℕ) (clean : List ℕ) (start : ℕ)
    → length clean - start < fuel
    → (ws : List (ℕ × ℕ)) × (windows fuel clean start ≡ some ws) × Covers clean start ws
unfolding windows
windows-Covers zero clean start h = absurd (omega arith)
windows-Covers (suc fuel) clean start h = elim (Bool-cases (leb (length clean) start)) [
  | inl over ↦ (
    [],
    rw over refl,
    record {
      covered = λ p low high. absurd (omega (arith, leb→le _ _ over));
      bounded = tt;
      few = omega arith;
    },
  )
  | inr more ↦
      let w = chunk_end-EndsWell clean start (ground arith) in
      elim (Bool-cases (leb (length clean) (chunk_end clean start))) [
        | inl last ↦ (
          (start, chunk_end clean start) ∷ [],
          rw (more, last) refl,
          record {
            covered = λ p low high. ground (arith, w.moves);
            bounded = ((w.moves, w.inside, w.small), tt);
            few = omega (arith, w.moves, w.inside);
          },
        )
        | inr on ↦
            let (back, forth, far) = next_start-le clean start w in
            let (ws, e, c) =
              windows-Covers fuel clean (next_start start (chunk_end clean start))
                (ground (arith, w.inside)) in
            (
              (start, chunk_end clean start) ∷ ws,
              rw (more, on, e) refl,
              record {
                covered = λ p low high. ground (arith, c.covered p);
                bounded = ((w.moves, w.inside, w.small), c.bounded);
                few =
                    still_few clean start (chunk_end clean start) _ (length ws) c.few
                      (far (ground arith)) back (ground arith);
              },
            )
      ]
]

-- With more fuel than the cleaned text has units chunkText ends with the pieces, blank ones left
-- out, of a series of windows of the cleaned text: each position lies in a window, no window is
-- empty, leaves the text or is longer than 1000 units, and there is at most one for each 352
-- units, rounded up.
pub chunk_text-Covers :
    (fuel : ℕ) (text : List ℕ)
    → length (clean_text text) < fuel
    → (ws : List (ℕ × ℕ)) × (chunk_text fuel text ≡ some (pieces (clean_text text) ws))
      × Covers (clean_text text) 0 ws
unfolding chunk_text
chunk_text-Covers fuel text h =
    let (ws, e, c) = windows-Covers fuel (clean_text text) 0 (omega arith) in
    (
      ws,
      chunk_loop-windows fuel (clean_text text) 0 ∙ ap (Option.map (pieces (clean_text text))) e,
      c,
    )

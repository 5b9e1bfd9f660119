-- ===== src/Ws/Rates.antt =====
-- messageHandler.ts: the rate windows of a socket.
use canvassync.Prelude.{
  ℕ, suc, ◌+◌, ◌≤◌, max, min, length, Option, none, some, List, [], ◌∷◌, ◌≡◌, if◌then◌else◌, arith,
  All,
}
use canvassync.Ws.Node.{RateWindow, step_window}

-- The messages at these times that are let through.
pub admitted : (limit window_ms : ℕ) → Option RateWindow → List ℕ → ℕ
unfolding step_window
admitted limit window_ms w [] = 0
admitted limit window_ms w (now ∷ later) =
    let (limited, w') = step_window now limit window_ms w in
    let rest = admitted limit window_ms (some w') later in if limited then rest else rest + 1

-- Times before the end of a window.
abbrev pub Within : ℕ → List ℕ → Type 0
Within end = All (λ t. suc t ≤ end)

admitted_open :
    (limit window_ms : ℕ) (w : RateWindow) (times : List ℕ)
    → Within (w.window_start_ms + window_ms) times
    → admitted limit window_ms (some w) times + w.count
      ≡ max w.count (min (w.count + length times) limit)
unfolding admitted
admitted_open limit window_ms w [] inside = ground (arith, max, min)
admitted_open limit window_ms w (now ∷ later) (early, inside) =
    ground (
      arith,
      admitted_open limit window_ms (record w { count = w.count + 1 }) later inside,
      max,
      min,
    )

-- Of the snapshots that a socket sends in one window, the limit's number is let through, or all of
-- them if they are fewer; a limit of 0 lets one through.
pub admitted_exact :
    (limit window_ms now : ℕ) (later : List ℕ)
    → Within (now + window_ms) later
    → admitted limit window_ms none (now ∷ later) ≡ min (length (now ∷ later)) (max 1 limit)
unfolding admitted
admitted_exact limit window_ms now later inside = ground (
  arith,
  max,
  min,
  admitted_open limit window_ms (record { window_start_ms = now; count = 1 }) later inside,
)

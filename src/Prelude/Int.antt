-- ===== src/Prelude/Int.antt =====
-- Signed integers over the native numbers: a JavaScript difference of two counters.
use Prim.Native.Nat.{ℕ, ◌-◌, ◌≤◌}
use mathlib.Core.Path.{◌≡◌}
use mathlib.Core.Logic.{◌↔◌}
use mathlib.Core.Bool.{Bool, true, false}
use native.Mathlib.Omega.{arith}
use canvassync.Prelude.Tests.{leb, if◌then◌else◌}

-- `negsuc n` is -(n + 1).
pub data ℤ : Type 0 where
  pos : ℕ → ℤ
  negsuc : ℕ → ℤ

-- a - b, as an integer.
abbrev pub sub_ℕ : ℕ → ℕ → ℤ
sub_ℕ a b = if leb b a then pos (a - b) else negsuc (b - a - 1)

-- x >= 0
abbrev pub nonneg : ℤ → Bool
nonneg (pos n) = true
nonneg (negsuc n) = false

pub nonneg-sub_ℕ : (a b : ℕ) → (nonneg (sub_ℕ a b) ≡ true) ↔ (b ≤ a)
nonneg-sub_ℕ a b = ground arith

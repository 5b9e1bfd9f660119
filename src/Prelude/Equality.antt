-- ===== src/Prelude/Equality.antt =====
-- JavaScript's `===` on the types that the program uses as keys.
use Prim.Native.Nat.{ℕ}
use Prim.Native.String.{String}
use mathlib.Core.Path.{◌≡◌, refl}
use mathlib.Core.Logic.{◌↔◌}
use mathlib.Core.Bool.{Bool, true}
use text.Mathlib.Text.{◌==◌ as same_text}
use text.Mathlib.TextEquality.{eq_iff}
use canvassync.Prelude.Tests.{nat_beq, nat_beq_iff}

-- A type of keys: a test, and that it finds the equal ones.
pub record Key {κ} (K : Type κ) : Type κ where
  pub matches : K → K → Bool
  pub matches_iff : (i j : K) → (matches i j ≡ true) ↔ (i ≡ j)

instance abbrev pub string_key : Key String
string_key = record { matches = same_text; matches_iff = eq_iff }

instance abbrev pub nat_key : Key ℕ
nat_key = record { matches_iff = nat_beq_iff; matches = nat_beq }

module _ {κ} {K : Type κ} ⦃key : Key K⦄ where
  infix 50 ◌==◌
  abbrev pub ◌==◌ : K → K → Bool
  i == j = key.matches i j

  pub matches_refl : (i : K) → (i == i) ≡ true
  matches_refl i = (key.matches_iff i i).1 refl

-- ===== src/Collation.antt =====
-- How the language orders texts. `Array.prototype.sort` compares UTF-16 code units.
-- `String.prototype.localeCompare` depends on the host's locale: it is a parameter, of which
-- ECMA-402 promises that it is a consistent comparison, that is a total preorder.
use Prim.Native.Char.{code}
use canvassync.Prelude.{
  ℕ, ◌+◌, ◌-◌, ◌/◌, ◌%◌, String, ◌≡◌, ◌⊎◌, true, List, [], ◌∷◌, ltb, nat_beq, if◌then◌else◌, arith,
}
use canvassync.Prelude.Int.{ℤ, pos, negsuc, sub_ℕ, nonneg}

-- The code units of a text.
abbrev pub utf16 : String → List ℕ
utf16 String.[] = []
utf16 (String.◌∷◌ c s) =
    if ltb (code c) 0x10000
    then code c ∷ utf16 s
    else (0xd800 + (code c - 0x10000) / 0x400) ∷ (0xdc00 + (code c - 0x10000) % 0x400) ∷ utf16 s

-- Lexicographic comparison.
unfoldable pub compare_units : List ℕ → List ℕ → ℤ
compare_units [] [] = pos 0
compare_units [] (y ∷ ys) = negsuc 0
compare_units (x ∷ xs) [] = pos 1
compare_units (x ∷ xs) (y ∷ ys) = if nat_beq x y then compare_units xs ys else sub_ℕ x y

pub compare_units_total :
    (xs ys : List ℕ) → (nonneg (compare_units xs ys) ≡ true) ⊎ (nonneg (compare_units ys xs) ≡ true)
unfolding compare_units
compare_units_total [] [] = ground arith
compare_units_total [] (y ∷ ys) = ground arith
compare_units_total (x ∷ xs) [] = ground arith
compare_units_total (x ∷ xs) (y ∷ ys) = ground (arith, compare_units_total xs ys)

pub compare_units_trans :
    (xs ys zs : List ℕ)
    → nonneg (compare_units xs ys) ≡ true
    → nonneg (compare_units ys zs) ≡ true
    → nonneg (compare_units xs zs) ≡ true
unfolding compare_units
compare_units_trans [] [] [] h k = ground arith
compare_units_trans [] [] (z ∷ zs) h k = ground arith
compare_units_trans [] (y ∷ ys) zs h k = ground arith
compare_units_trans (x ∷ xs) ys [] h k = ground arith
compare_units_trans (x ∷ xs) [] (z ∷ zs) h k = ground arith
compare_units_trans (x ∷ xs) (y ∷ ys) (z ∷ zs) h k = ground (arith, compare_units_trans xs ys zs)

-- `a.localeCompare(b)`, with what ECMA-402 says of it.
pub record Collator : Type 0 where
  pub locale_compare : String → String → ℤ
  pub total :
      (a b : String) → (nonneg (locale_compare a b) ≡ true) ⊎ (nonneg (locale_compare b a) ≡ true)
  pub trans :
      (a b c : String)
      → nonneg (locale_compare a b) ≡ true
      → nonneg (locale_compare b c) ≡ true
      → nonneg (locale_compare a c) ≡ true

-- The order of code units is such a comparison.
abbrev pub code_unit_collator : Collator
code_unit_collator = record {
  locale_compare = λ a b. compare_units (utf16 a) (utf16 b);
  total = λ a b. compare_units_total (utf16 a) (utf16 b);
  trans = λ a b c. compare_units_trans (utf16 a) (utf16 b) (utf16 c);
}

-- ===== src/Rag/Text.antt =====
-- Texts as lists of UTF-16 code units, and the language's operations on them that
-- apps/http-backend/src/utils/rag.ts uses.
use canvassync.Prelude.{
  ℕ, zero, suc, ◌-◌, ◌<◌, Bool, true, false, ◌&&◌, ◌||◌, Option, none, some, List, [], ◌∷◌, ◌≡◌,
  inl, inr, length, any, leb, nat_beq, if◌then◌else◌, Bool-cases, Option-cases, arith,
}

-- text.slice(start, end)
abbrev pub take : ℕ → List ℕ → List ℕ
take zero text = []
take (suc n) [] = []
take (suc n) (c ∷ text) = c ∷ take n text

abbrev pub drop : ℕ → List ℕ → List ℕ
drop zero text = text
drop (suc n) [] = []
drop (suc n) (c ∷ text) = drop n text

abbrev pub slice : ℕ → ℕ → List ℕ → List ℕ
slice start end text = take (end - start) (drop start text)

unfoldable pub starts_with : List ℕ → List ℕ → Bool
starts_with [] text = true
starts_with (p ∷ pattern) [] = false
starts_with (p ∷ pattern) (c ∷ text) = nat_beq p c && starts_with pattern text

abbrev shift : Option ℕ → Bool → Option ℕ
shift (some i) here = some (suc i)
shift none true = some 0
shift none false = none

-- text.lastIndexOf(pattern) for a pattern that is not empty: none stands for -1.
unfoldable pub last_index_of : List ℕ → List ℕ → Option ℕ
last_index_of pattern [] = none
last_index_of pattern (c ∷ text) =
    shift (last_index_of pattern text) (starts_with pattern (c ∷ text))

-- The white space and the line ends of ECMAScript.
unfoldable pub is_white : ℕ → Bool
is_white n =
    any (nat_beq n)
      (0x20 ∷ 0xa0 ∷ 0x1680 ∷ 0x2028 ∷ 0x2029 ∷ 0x202f ∷ 0x205f ∷ 0x3000 ∷ 0xfeff ∷ [])
    || (leb 9 n && leb n 13)
    || (leb 0x2000 n && leb n 0x200a)

unfoldable pub trim_start : List ℕ → List ℕ
trim_start [] = []
trim_start (c ∷ text) = let rest = trim_start text in if is_white c then rest else c ∷ text

abbrev keep_unless_blank : ℕ → List ℕ → List ℕ
keep_unless_blank c [] = if is_white c then [] else c ∷ []
keep_unless_blank c (d ∷ rest) = c ∷ d ∷ rest

unfoldable pub trim_end : List ℕ → List ℕ
trim_end [] = []
trim_end (c ∷ text) = keep_unless_blank c (trim_end text)

-- text.trim()
unfoldable pub trim : List ℕ → List ℕ
unfolding is_white trim_start trim_end
trim text = trim_end (trim_start text)

-- A pattern that is found stands inside the text.
pub last_index_of-lt :
    (pattern text : List ℕ) (i : ℕ) → last_index_of pattern text ≡ some i → i < length text
unfolding last_index_of
last_index_of-lt pattern [] i h = cc
last_index_of-lt pattern (c ∷ text) i h = elim (Option-cases (last_index_of pattern text)) [
  | inl e ↦ elim (Bool-cases (starts_with pattern (c ∷ text))) [
    | inl t ↦ ground arith
    | inr t ↦ ground arith
  ]
  | inr (j, e) ↦ ground (arith, last_index_of-lt pattern text j)
]

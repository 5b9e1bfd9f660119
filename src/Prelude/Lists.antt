-- ===== src/Prelude/Lists.antt =====
-- Lists counted by the native numbers, with predicates by recursion.
use Prim.Native.Nat.{ℕ, suc, ◌+◌}
use mathlib.Core.Path.{◌≡◌, refl}
use mathlib.Core.Bool.{Bool, true, false, ◌||◌, ◌&&◌}
use mathlib.Core.Option.{Option, none, some}
use mathlib.Core.List.{List, [], ◌∷◌, ◌++◌, foldl, map}
use native.Mathlib.Omega.{arith}
use mathlib.Core.Logic.{inl, inr}
use canvassync.Prelude.Tests.{if◌then◌else◌, Bool-cases}

module _ {ℓ} {A : Type ℓ} where
  abbrev pub length : List A → ℕ
  length [] = 0
  length (x ∷ xs) = suc (length xs)

  -- `xs.some(p)` and `xs.every(p)`
  abbrev pub any : (A → Bool) → List A → Bool
  any p [] = false
  any p (x ∷ xs) = p x || any p xs

  abbrev pub all : (A → Bool) → List A → Bool
  all p [] = true
  all p (x ∷ xs) = p x && all p xs

  -- `xs.filter(p)`
  abbrev pub select : (A → Bool) → List A → List A
  select p [] = []
  select p (x ∷ xs) = let rest = select p xs in if p x then x ∷ rest else rest

  -- `xs.find(p)`
  abbrev pub find : (A → Bool) → List A → Option A
  find p [] = none
  find p (x ∷ xs) = if p x then some x else find p xs

  pub length-append : (xs ys : List A) → length (xs ++ ys) ≡ length xs + length ys
  length-append [] ys = omega arith
  length-append (x ∷ xs) ys = omega (arith, length-append xs ys)

  abbrev pub All {κ} : (A → Type κ) → List A → Type κ
  All P [] = Unit
  All P (x ∷ xs) = P x × All P xs

  pub All-append {κ} : (P : A → Type κ) (xs ys : List A) → All P xs → All P ys → All P (xs ++ ys)
  All-append P [] ys h k = k
  All-append P (x ∷ xs) ys (p, h) k = (p, All-append P xs ys h k)

  pub All-impl {κ μ} :
      (P : A → Type κ) (Q : A → Type μ) (xs : List A) → ((x : A) → P x → Q x) → All P xs → All Q xs
  All-impl P Q [] f h = tt
  All-impl P Q (x ∷ xs) f (p, h) = (f x p, All-impl P Q xs f h)

  pub All-select {κ μ} :
      (P : A → Type κ) (Q : A → Type μ) (test : A → Bool) (xs : List A)
      → ((x : A) → test x ≡ true → P x → Q x)
      → All P xs
      → All Q (select test xs)
  All-select P Q test [] f h = tt
  All-select P Q test (x ∷ xs) f (p, h) = elim (Bool-cases (test x)) [
    | inl kept ↦ rw kept (f x kept p, All-select P Q test xs f h)
    | inr dropped ↦ rw dropped (All-select P Q test xs f h)
  ]

module _ {ℓ κ} {A : Type ℓ} {B : Type κ} where
  pub foldl-append :
      (f : B → A → B) (b : B) (xs ys : List A) → foldl f b (xs ++ ys) ≡ foldl f (foldl f b xs) ys
  foldl-append f b [] ys = refl
  foldl-append f b (x ∷ xs) ys = foldl-append f (f b x) xs ys

  pub All-map {μ ν} :
      (P : A → Type μ) (Q : B → Type ν) (f : A → B) (xs : List A)
      → ((x : A) → P x → Q (f x))
      → All P xs
      → All Q (map f xs)
  All-map P Q f [] h ps = tt
  All-map P Q f (x ∷ xs) h (p, ps) = (h x p, All-map P Q f xs h ps)

-- ===== src/Rooms/Table.antt =====
-- Tables as lists of rows in the order in which they were created: the `where` clauses that the
-- queries use, and rows that a key names at most once.
use canvassync.Prelude.{
  Bool, true, false, not, none, some, List, [], ◌∷◌, ◌++◌, map, ◌≡◌, refl, inl, inr, any, find,
  select, if◌then◌else◌, Bool-cases, arith, sym, ◌∙◌, ◌||◌,
}
use mathlib.Core.Option

module _ {ℓ} {A : Type ℓ} where
  -- `updateMany({ where, data })`
  abbrev pub update_many : (A → Bool) → (A → A) → List A → List A
  update_many test change rows = map (λ row. if test row then change row else row) rows

  -- `deleteMany({ where })`
  abbrev pub delete_many : (A → Bool) → List A → List A
  delete_many test rows = select (λ row. not (test row)) rows

  -- At most one row passes the test.
  abbrev pub Once : (A → Bool) → List A → Type 0
  Once test [] = Unit
  Once test (x ∷ xs) = (test x ≡ true → any test xs ≡ false) × Once test xs

  pub any-of_find : (test : A → Bool) (xs : List A) → find test xs ≡ none → any test xs ≡ false
  any-of_find test [] h = refl
  any-of_find test (x ∷ xs) h = ground (arith, any-of_find test xs)

  pub find-of_any : (test : A → Bool) (xs : List A) → any test xs ≡ false → find test xs ≡ none
  find-of_any test [] h = refl
  find-of_any test (x ∷ xs) h = ground (arith, find-of_any test xs)

  pub find-passes : (test : A → Bool) (xs : List A) {x : A} → find test xs ≡ some x → test x ≡ true
  find-passes test [] h = cc
  find-passes test (y ∷ xs) {x} h = ground (arith, find-passes test xs {x = x})

  pub any-of_found :
      (p q : A → Bool) (xs : List A) {x : A} → find p xs ≡ some x → q x ≡ true → any q xs ≡ true
  any-of_found p q [] h t = cc
  any-of_found p q (y ∷ xs) {x} h t = ground (arith, any-of_found p q xs {x = x})

  -- A row that another test found is the row that its own test finds.
  pub find-Once :
      (p q : A → Bool) (xs : List A) {x : A}
      → Once q xs
      → find p xs ≡ some x
      → q x ≡ true
      → find q xs ≡ some x
  find-Once p q [] o h t = cc
  find-Once p q (y ∷ xs) {x} o h t =
      ground (arith, find-Once p q xs {x = x}, any-of_found p q xs {x = x})

  -- A change that keeps the test keeps what it finds and how often.
  pub find-map :
      (test : A → Bool) (f : A → A) (xs : List A)
      → ((x : A) → test (f x) ≡ test x)
      → find test (map f xs) ≡ Option.map f (find test xs)
  find-map test f [] keep = refl
  find-map test f (x ∷ xs) keep = ground (arith, keep x, find-map test f xs keep)

  pub any-map :
      (test : A → Bool) (f : A → A) (xs : List A)
      → ((x : A) → test (f x) ≡ test x)
      → any test (map f xs) ≡ any test xs
  any-map test f [] keep = refl
  any-map test f (x ∷ xs) keep = ground (arith, keep x, any-map test f xs keep)

  pub Once-map :
      (test : A → Bool) (f : A → A) (xs : List A)
      → ((x : A) → test (f x) ≡ test x)
      → Once test xs
      → Once test (map f xs)
  Once-map test f [] keep o = tt
  Once-map test f (x ∷ xs) keep (alone, o) =
      (λ h. any-map test f xs keep ∙ alone (sym (keep x) ∙ h), Once-map test f xs keep o)

  pub any-delete :
      (test gone : A → Bool) (xs : List A)
      → any test xs ≡ false
      → any test (delete_many gone xs) ≡ false
  any-delete test gone [] h = refl
  any-delete test gone (x ∷ xs) h = ground (arith, any-delete test gone xs)

  pub Once-delete :
      (test gone : A → Bool) (xs : List A) → Once test xs → Once test (delete_many gone xs)
  Once-delete test gone [] o = tt
  Once-delete test gone (x ∷ xs) (alone, o) = elim (Bool-cases (gone x)) [
    | inl e ↦ rw e (Once-delete test gone xs o)
    | inr e ↦ rw e (λ h. any-delete test gone xs (alone h), Once-delete test gone xs o)
  ]

  pub any-append_one :
      (test : A → Bool) (xs : List A) (x : A) → any test (xs ++ x ∷ []) ≡ any test xs || test x
  any-append_one test [] x = ground arith
  any-append_one test (y ∷ xs) x = ground (arith, any-append_one test xs x)

  pub Once-append_one :
      (test : A → Bool) (xs : List A) (x : A)
      → (test x ≡ true → any test xs ≡ false)
      → Once test xs
      → Once test (xs ++ x ∷ [])
  Once-append_one test [] x h o = (λ _. refl, tt)
  Once-append_one test (y ∷ xs) x h (alone, o) = (
    λ here. any-append_one test xs x ∙ ground (arith, alone here, h),
    Once-append_one test xs x (λ t. ground (arith, h t)) o,
  )

  pub find-append_one :
      (test : A → Bool) (xs : List A) (x : A)
      → find test (xs ++ x ∷ [])
        ≡ elim (find test xs) [ none ↦ if test x then some x else none | some y ↦ some y ]
  find-append_one test [] x = ground arith
  find-append_one test (y ∷ xs) x = ground (arith, find-append_one test xs x)

  pub find-delete :
      (test gone : A → Bool) (xs : List A)
      → ((x : A) → test x ≡ true → gone x ≡ false)
      → find test (delete_many gone xs) ≡ find test xs
  find-delete test gone [] apart = refl
  find-delete test gone (x ∷ xs) apart = ground (arith, apart x, find-delete test gone xs apart)

  pub find-deleted :
      (test gone : A → Bool) (xs : List A)
      → ((x : A) → test x ≡ true → gone x ≡ true)
      → find test (delete_many gone xs) ≡ none
  find-deleted test gone [] h = refl
  find-deleted test gone (x ∷ xs) h = ground (arith, h x, find-deleted test gone xs h)

  pub any-deleted :
      (test gone : A → Bool) (xs : List A)
      → ((x : A) → test x ≡ true → gone x ≡ true)
      → any test (delete_many gone xs) ≡ false
  any-deleted test gone [] h = refl
  any-deleted test gone (x ∷ xs) h = ground (arith, h x, any-deleted test gone xs h)

  pub any-kept :
      (test gone : A → Bool) (xs : List A)
      → ((x : A) → test x ≡ true → gone x ≡ false)
      → any test (delete_many gone xs) ≡ any test xs
  any-kept test gone [] apart = refl
  any-kept test gone (x ∷ xs) apart = ground (arith, apart x, any-kept test gone xs apart)

  pub any-cong : (p q : A → Bool) (xs : List A) → ((x : A) → p x ≡ q x) → any p xs ≡ any q xs
  any-cong p q [] h = refl
  any-cong p q (x ∷ xs) h = ground (arith, h x, any-cong p q xs h)

  pub any-of_delete :
      (test gone : A → Bool) (xs : List A)
      → any test (delete_many gone xs) ≡ true
      → any test xs ≡ true
  any-of_delete test gone [] h = h
  any-of_delete test gone (x ∷ xs) h = ground (arith, any-of_delete test gone xs)

-- ===== src/Rooms/Paging.antt =====
-- What the pages of a room's shapes add up to: `getShapes` of
-- apps/http-backend/src/controllers/room.controller.ts under the loop of
-- apps/web/app/canvas/[roomId]/page.tsx.
use mathlib.Core.List.{append_assoc}
use mathlib.Core.Path.{subst}
use canvassync.Prelude.{
  ℕ, zero, suc, ◌+◌, ◌<◌, ◌≤◌, true, false, Option, none, some, List, [], ◌∷◌, ◌++◌, ◌≡◌, refl, ap,
  sym, ◌∙◌, inl, inr, length, select, All, Bool-cases, ltb, ltb→lt, arith,
}
use canvassync.Rooms.Shapes.{ShapeRow, Page, take, last_created, is_after, get_shapes, fetch_pages}

-- Every row is younger than those before it.
abbrev pub Ascending : List ShapeRow → Type 0
Ascending [] = Unit
Ascending (row ∷ rows) = All (λ later. row.created_at < later.created_at) rows × Ascending rows

select_younger :
    (t : ℕ) (rows : List ShapeRow)
    → All (λ row. t < row.created_at) rows
    → select (is_after (some t)) rows ≡ rows
select_younger t [] h = refl
select_younger t (row ∷ rows) (younger, h) = ground (arith, select_younger t rows h)

below_last :
    (t : ℕ) (rows : List ShapeRow) (row : ShapeRow) (tail : List ShapeRow)
    → All (λ later. t < later.created_at) (rows ++ row ∷ tail)
    → t < row.created_at
below_last t [] row tail (h, hs) = h
below_last t (x ∷ rows) row tail (h, hs) = below_last t rows row tail hs

-- The cursor at a row selects what stands behind it.
select-cursor :
    (rows : List ShapeRow) (row : ShapeRow) (tail : List ShapeRow)
    → Ascending (rows ++ row ∷ tail)
    → select (is_after (some row.created_at)) (rows ++ row ∷ tail) ≡ tail
select-cursor [] row tail (younger, h) = ground (arith, select_younger row.created_at tail younger)
select-cursor (x ∷ rows) row tail (younger, h) =
    ground (arith, below_last x.created_at rows row tail younger, select-cursor rows row tail h)

-- A page that does not hold all rows ends at a row behind which there are more.
pub record Cut (n : ℕ) (rows : List ShapeRow) : Type 0 where
  pub before : List ShapeRow
  pub row : ShapeRow
  pub tail : List ShapeRow
  pub whole : rows ≡ before ++ row ∷ tail
  pub page : take (suc n) rows ≡ before ++ row ∷ []
  pub last : last_created (before ++ row ∷ []) ≡ some row.created_at
  pub shorter : length tail < length rows

last_of :
    (x : ShapeRow) (before : List ShapeRow) (row : ShapeRow)
    → last_created (x ∷ (before ++ row ∷ [])) ≡ last_created (before ++ row ∷ [])
last_of x [] row = refl
last_of x (y ∷ before) row = refl

pub cut : (n : ℕ) (rows : List ShapeRow) → n < length rows → Cut n rows
cut zero [] h = absurd (omega arith)
cut zero (x ∷ rows) h = record {
  before = [];
  row = x;
  tail = rows;
  whole = refl;
  page = refl;
  last = refl;
  shorter = omega arith;
}
cut (suc n) [] h = absurd (omega arith)
cut (suc n) (x ∷ rows) h =
    let c = cut n rows (omega arith) in
    record {
      before = x ∷ c.before;
      row = c.row;
      tail = c.tail;
      whole = ap (λ r. x ∷ r) c.whole;
      page = ap (λ r. x ∷ r) c.page;
      last = last_of x c.before c.row ∙ c.last;
      shorter = omega (arith, c.shorter);
    }

take-more :
    (n : ℕ) (rows : List ShapeRow)
    → (take n (take (suc n) rows) ≡ take n rows)
      × (ltb n (length (take (suc n) rows)) ≡ ltb n (length rows))
take-more zero [] = (refl, refl)
take-more zero (x ∷ rows) = (refl, ground arith)
take-more (suc n) [] = (refl, refl)
take-more (suc n) (x ∷ rows) =
    let (same, longer) = take-more n rows in (ap (λ r. x ∷ r) same, ground arith)

pub take_all : (n : ℕ) (rows : List ShapeRow) → length rows ≤ n → take n rows ≡ rows
take_all zero [] h = refl
take_all zero (x ∷ rows) h = absurd (omega arith)
take_all (suc n) [] h = refl
take_all (suc n) (x ∷ rows) h = ap (λ r. x ∷ r) (take_all n rows (omega arith))

add-one : (n : ℕ) → n + 1 ≡ suc n
add-one n = omega arith

longer : (n : ℕ) (rows : List ShapeRow) → n < length rows → ltb n (length rows) ≡ true
longer n rows h = ground arith

not_longer : (n : ℕ) (rows : List ShapeRow) → length rows ≤ n → ltb n (length rows) ≡ false
not_longer n rows h = ground arith

-- The answer to a cursor, when `rest` is what it selects.
pub page_last :
    (limit : ℕ) (cursor : Option ℕ) (rows rest : List ShapeRow)
    → select (is_after cursor) rows ≡ rest
    → length rest ≤ limit
    → get_shapes limit cursor rows ≡ record { rows = rest; next_cursor = none }
unfolding get_shapes
page_last limit cursor rows rest e h =
    rw (e, add-one limit, (take-more limit rest).1, get_shapes)
      (rw (not_longer limit rest h) (rw (take_all (suc limit) rest (omega arith)) refl))

page_more :
    (limit : ℕ) (cursor : Option ℕ) (rows rest : List ShapeRow)
    → select (is_after cursor) rows ≡ rest
    → limit < length rest
    → get_shapes limit cursor rows
      ≡ record { rows = take limit rest; next_cursor = last_created (take limit rest) }
unfolding get_shapes
page_more limit cursor rows rest e h =
    rw (e, add-one limit, (take-more limit rest).1, get_shapes)
      (rw (longer limit rest h) (rw ((take-more limit rest).0) refl))

pub select_first : (rows : List ShapeRow) → select (is_after none) rows ≡ rows
select_first [] = refl
select_first (x ∷ rows) = ap (λ r. x ∷ r) (select_first rows)

regroup :
    (got before : List ShapeRow) (row : ShapeRow) (tail : List ShapeRow)
    → (got ++ (before ++ row ∷ [])) ++ tail ≡ (got ++ before) ++ row ∷ tail
regroup got before row tail = simp append_assoc

-- One round of the loop, by the page that it is given.
pub goes_on :
    (fuel limit : ℕ) (rows : List ShapeRow) (cursor : Option ℕ) (got : List ShapeRow) (page : Page)
    → get_shapes limit cursor rows ≡ page
    → fetch_pages (suc fuel) limit rows cursor got
      ≡ (elim page.next_cursor as (λ _. Option (List ShapeRow)) [
        | none ↦ some (got ++ page.rows)
        | some next ↦ fetch_pages fuel limit rows (some next) (got ++ page.rows)
      ])
unfolding fetch_pages
goes_on fuel limit rows cursor got page e =
    ap
      (λ (p : Page). elim p.next_cursor as (λ _. Option (List ShapeRow)) [
        | none ↦ some (got ++ p.rows)
        | some next ↦ fetch_pages fuel limit rows (some next) (got ++ p.rows)
      ])
      e

pub page-Cut :
    (n : ℕ) (cursor : Option ℕ) (rows rest : List ShapeRow)
    → select (is_after cursor) rows ≡ rest
    → suc n < length rest
    → (c : Cut n rest)
    → get_shapes (suc n) cursor rows
      ≡ record { rows = c.before ++ c.row ∷ []; next_cursor = some c.row.created_at }
page-Cut n cursor rows rest here more c =
    page_more (suc n) cursor rows rest here more ∙ rw (c.page, c.last) refl

split_rows :
    (rows got rest : List ShapeRow) {n : ℕ} (c : Cut n rest)
    → rows ≡ got ++ rest
    → rows ≡ (got ++ c.before) ++ c.row ∷ c.tail
split_rows rows got rest c whole =
    whole ∙ ap (λ r. got ++ r) c.whole ∙ sym (append_assoc got c.before (c.row ∷ c.tail))

-- The loop from a cursor that selects `rest`, with what stands before it accumulated.
fetch_rest :
    (fuel limit : ℕ) (cursor : Option ℕ) (rows got rest : List ShapeRow)
    → 0 < limit
    → Ascending rows
    → rows ≡ got ++ rest
    → select (is_after cursor) rows ≡ rest
    → length rest < fuel
    → fetch_pages fuel limit rows cursor got ≡ some rows
unfolding fetch_pages
fetch_rest zero limit cursor rows got rest pos asc whole here h = absurd (omega arith)
fetch_rest (suc fuel) zero cursor rows got rest pos asc whole here h = absurd (omega arith)
fetch_rest (suc fuel) (suc n) cursor rows got rest pos asc whole here h =
    elim (Bool-cases (ltb (suc n) (length rest))) [
      | inl more ↦
          let c = cut n rest (ground arith) in
          let parts = split_rows rows got rest c whole in
          goes_on fuel (suc n) rows cursor got _
            (page-Cut n cursor rows rest here (ltb→lt _ _ more) c)
          ∙ fetch_rest fuel (suc n) (some c.row.created_at) rows (got ++ (c.before ++ c.row ∷ []))
              c.tail pos asc (parts ∙ sym (regroup got c.before c.row c.tail))
              (rw parts (select-cursor (got ++ c.before) c.row c.tail (subst Ascending parts asc)))
              (omega (arith, c.shorter))
      | inr last ↦
          goes_on fuel (suc n) rows cursor got _
            (page_last (suc n) cursor rows rest here (ground arith))
          ∙ rw (← whole) refl
    ]

-- The loop over shapes of which each is younger than those before it.
pub fetch_pages-all :
    (limit fuel : ℕ) (rows : List ShapeRow)
    → Ascending rows
    → 0 < limit
    → length rows < fuel
    → fetch_pages fuel limit rows none [] ≡ some rows
fetch_pages-all limit fuel rows asc pos h =
    fetch_rest fuel limit none rows [] rows pos asc refl (select_first rows) h

-- ===== src/Rooms/Ties.antt =====
-- The loop over the pages of a room's shapes where shapes share their `createdAt`, and the shapes
-- that it returns: `getShapesChunked` of apps/web/app/canvas/[roomId]/page.tsx.
use mathlib.Core.Option
use mathlib.Core.List.{append_assoc, append-nil}
use mathlib.Core.Path.{subst}
use canvassync.Prelude.{
  ℕ, zero, suc, ◌<◌, String, false, none, some, List, [], ◌∷◌, ◌++◌, ◌≡◌, refl, ap, sym, ◌∙◌,
  length, select, All, Bool-cases, inl, inr, ltb, foldl, map, ◌==◌, string_key, arith,
}
use canvassync.JsMap.{JsMap, empty, set, has, values}
use canvassync.JsMap.Laws.{set_fresh, has-set}
use canvassync.Rooms.Shapes.{
  ShapeRow, take, is_after, fetch_pages, unique_shapes, page_size, get_shapes_chunked,
}
use canvassync.Rooms.Paging.{
  Ascending, cut, take_all, page_last, page-Cut, goes_on, select_first, fetch_pages-all,
}

none_younger :
    (t : ℕ) (rows : List ShapeRow)
    → All (λ row. row.created_at ≡ t) rows
    → select (is_after (some t)) rows ≡ []
none_younger t [] h = refl
none_younger t (row ∷ rows) (same, h) = ground (arith, none_younger t rows h)

at_cut :
    (t : ℕ) (rows before : List ShapeRow) (row : ShapeRow) (tail : List ShapeRow)
    → rows ≡ before ++ row ∷ tail
    → All (λ r. r.created_at ≡ t) rows
    → row.created_at ≡ t
at_cut t rows before row tail e h = in_append before (subst (All (λ r. r.created_at ≡ t)) e h)
  where
    in_append :
        (before : List ShapeRow)
        → All (λ r. r.created_at ≡ t) (before ++ row ∷ tail)
        → row.created_at ≡ t
    in_append [] (h, hs) = h
    in_append (x ∷ before) (h, hs) = in_append before hs

-- No two shapes have one id.
abbrev pub HasDistinctIds : List ShapeRow → Type 0
HasDistinctIds [] = Unit
HasDistinctIds (row ∷ rows) = All (λ other. (row.id == other.id) ≡ false) rows × HasDistinctIds rows

abbrev entry : ShapeRow → String × ShapeRow
entry row = (row.id, row)

kept : (rows : List ShapeRow) → values (map entry rows) ≡ rows
kept [] = refl
kept (row ∷ rows) = ap (λ r. row ∷ r) (kept rows)

still_new :
    (seen : JsMap String ShapeRow) (row : ShapeRow) (rows : List ShapeRow)
    → All (λ other. has seen other.id ≡ false) rows
    → All (λ other. (row.id == other.id) ≡ false) rows
    → All (λ other. has (set seen row.id row) other.id ≡ false) rows
still_new seen row [] fresh apart = tt
still_new seen row (other ∷ rows) (new, fresh) (differs, apart) =
    (has-set seen row.id other.id row ∙ rw differs new, still_new seen row rows fresh apart)

seen_all :
    (seen : JsMap String ShapeRow) (rows : List ShapeRow)
    → All (λ row. has seen row.id ≡ false) rows
    → HasDistinctIds rows
    → foldl (λ (m : JsMap String ShapeRow) row. set m row.id row) seen rows ≡ seen ++ map entry rows
seen_all seen [] fresh distinct = sym (append-nil seen)
seen_all seen (row ∷ rows) (new, fresh) (apart, distinct) =
    seen_all (set seen row.id row) rows (still_new seen row rows fresh apart) distinct
    ∙ ap (λ m. m ++ map entry rows) (set_fresh seen row.id row new)
    ∙ append_assoc seen (entry row ∷ []) (map entry rows)

unseen : (rows : List ShapeRow) → All (λ row. has {V = ShapeRow} empty row.id ≡ false) rows
unfolding has
unseen [] = tt
unseen (row ∷ rows) = (refl, unseen rows)

unique_shapes-distinct : (rows : List ShapeRow) → HasDistinctIds rows → unique_shapes rows ≡ rows
unfolding unique_shapes
unique_shapes-distinct rows distinct =
    ap values (seen_all empty rows (unseen rows) distinct) ∙ kept rows

-- If every shape of a room is younger than those before it and no two have one id, the loop of
-- getShapesChunked ends, with one round more than there are shapes as fuel, and returns all shapes
-- in order.
pub get_shapes_chunked-all :
    (fuel : ℕ) (rows : List ShapeRow)
    → Ascending rows
    → HasDistinctIds rows
    → length rows < fuel
    → get_shapes_chunked fuel rows ≡ some rows
unfolding get_shapes_chunked
get_shapes_chunked-all fuel rows ascending distinct h =
    ap (Option.map unique_shapes) (fetch_pages-all page_size fuel rows ascending (omega arith) h)
    ∙ ap some (unique_shapes-distinct rows distinct)

-- If all shapes of a room have one createdAt and are more than a page, the loop over the pages
-- returns the first page alone: the other shapes are lost.
pub fetch_pages_ties :
    (limit fuel t : ℕ) (rows : List ShapeRow)
    → All (λ row. row.created_at ≡ t) rows
    → 0 < limit
    → limit < length rows
    → fetch_pages (suc (suc fuel)) limit rows none [] ≡ some (take limit rows)
fetch_pages_ties zero fuel t rows same pos more = absurd (omega arith)
fetch_pages_ties (suc n) fuel t rows same pos more =
    let c = cut n rows (omega arith) in
    goes_on (suc fuel) (suc n) rows none [] _ (page-Cut n none rows rows (select_first rows) more c)
    ∙ goes_on fuel (suc n) rows (some c.row.created_at) (c.before ++ c.row ∷ []) _ (
        page_last (suc n) (some c.row.created_at) rows []
          (rw (at_cut t rows c.before c.row c.tail c.whole same) (none_younger t rows same))
          (omega arith))
    ∙ ap some (append-nil _ ∙ sym c.page)

All-take :
    (row : ShapeRow) (n : ℕ) (rows : List ShapeRow)
    → All (λ other. (row.id == other.id) ≡ false) rows
    → All (λ other. (row.id == other.id) ≡ false) (take n rows)
All-take row zero rows h = tt
All-take row (suc n) [] h = tt
All-take row (suc n) (other ∷ rows) (apart, h) = (apart, All-take row n rows h)

take-HasDistinctIds :
    (n : ℕ) (rows : List ShapeRow) → HasDistinctIds rows → HasDistinctIds (take n rows)
take-HasDistinctIds zero rows h = tt
take-HasDistinctIds (suc n) [] h = tt
take-HasDistinctIds (suc n) (row ∷ rows) (apart, h) =
    (All-take row n rows apart, take-HasDistinctIds n rows h)

-- The pages of shapes that one createMany has stored.
fetch_pages-batch :
    (limit fuel t : ℕ) (rows : List ShapeRow)
    → All (λ row. row.created_at ≡ t) rows
    → 0 < limit
    → fetch_pages (suc (suc fuel)) limit rows none [] ≡ some (take limit rows)
fetch_pages-batch limit fuel t rows same pos = elim (Bool-cases (ltb limit (length rows))) [
  | inl more ↦ fetch_pages_ties limit fuel t rows same pos (ground arith)
  | inr few ↦
      goes_on (suc fuel) limit rows none [] _
        (page_last limit none rows rows (select_first rows) (ground arith))
      ∙ ap some (sym (take_all limit rows (ground arith)))
]

-- If the shapes of a room have one createdAt, as one createMany gives it to them, and no two have
-- one id, the loop of getShapesChunked ends within two rounds and returns the first 500 of them in
-- order: all of them if there are no more.
pub get_shapes_chunked-batch :
    (fuel t : ℕ) (rows : List ShapeRow)
    → All (λ row. row.created_at ≡ t) rows
    → HasDistinctIds rows
    → get_shapes_chunked (suc (suc fuel)) rows ≡ some (take page_size rows)
unfolding get_shapes_chunked
get_shapes_chunked-batch fuel t rows same distinct =
    ap (Option.map unique_shapes) (fetch_pages-batch page_size fuel t rows same (omega arith))
    ∙ ap some
        (unique_shapes-distinct (take page_size rows) (take-HasDistinctIds page_size rows distinct))

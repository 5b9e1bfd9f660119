-- ===== src/Rooms/Shapes.antt =====
-- Reading a room's shapes page by page: `getShapes` of
-- apps/http-backend/src/controllers/room.controller.ts without a viewport, and the loop
-- `getShapesChunked` of apps/web/app/canvas/[roomId]/page.tsx that calls it.
use mathlib.Core.Option
use canvassync.Prelude.{
  ℕ, zero, suc, ◌+◌, min, max, String, Bool, true, Option, none, some, List, [], ◌∷◌, ◌++◌, length,
  select, foldl, ltb, if◌then◌else◌, string_key,
}
use canvassync.JsMap.{JsMap, empty, set, values}
use canvassync.JsValue.{JsValue}

abbrev pub max_shapes_per_page : ℕ
max_shapes_per_page = 5000

abbrev pub default_shapes_per_page : ℕ
default_shapes_per_page = 2000

-- `Math.max(1, Math.min(…, rawLimit))`: none if the text is no finite number. A negative one counts
-- as 0.
unfoldable pub shapes_limit : Option ℕ → ℕ
shapes_limit none = default_shapes_per_page
shapes_limit (some raw) = max 1 (min max_shapes_per_page raw)

-- What is read of a row: `props` holds the shape, and `id` is the id that stands in it.
pub record ShapeRow : Type 0 where
  pub id : String
  pub created_at : ℕ
  pub props : JsValue

pub record Page : Type 0 where
  pub rows : List ShapeRow
  pub next_cursor : Option ℕ

abbrev pub take : ℕ → List ShapeRow → List ShapeRow
take zero rows = []
take (suc n) [] = []
take (suc n) (row ∷ rows) = row ∷ take n rows

abbrev pub last_created : List ShapeRow → Option ℕ
last_created [] = none
last_created (row ∷ []) = some row.created_at
last_created (row ∷ next ∷ rows) = last_created (next ∷ rows)

-- `createdAt: { gt: cursor }`
abbrev pub is_after : Option ℕ → ShapeRow → Bool
is_after none row = true
is_after (some cursor) row = ltb cursor row.created_at

-- `rows` are the room's rows that are not deleted, in the order of their `createdAt`.
unfoldable pub get_shapes : (limit : ℕ) (cursor : Option ℕ) → List ShapeRow → Page
get_shapes limit cursor rows =
    let found = take (limit + 1) (select (is_after cursor) rows) in
    if ltb limit (length found)
    then record { rows = take limit found; next_cursor = last_created (take limit found) }
    else record { rows = found; next_cursor = none }

-- The loop, on fuel: none if the fuel runs out.
unfoldable pub fetch_pages :
    (fuel limit : ℕ)
    → List ShapeRow
    → (cursor : Option ℕ) (accumulated : List ShapeRow) → Option (List ShapeRow)
unfolding get_shapes
fetch_pages zero limit rows cursor accumulated = none
fetch_pages (suc fuel) limit rows cursor accumulated =
    let page = get_shapes limit cursor rows in
    elim page.next_cursor [
      | none ↦ some (accumulated ++ page.rows)
      | some next ↦ fetch_pages fuel limit rows (some next) (accumulated ++ page.rows)
    ]

abbrev pub page_size : ℕ
page_size = 500

-- `seen`: the last shape with an id, at the place of the first.
unfoldable pub unique_shapes : List ShapeRow → List ShapeRow
unique_shapes rows =
    values (foldl (λ (seen : JsMap String ShapeRow) row. set seen row.id row) empty rows)

unfoldable pub get_shapes_chunked : (fuel : ℕ) → List ShapeRow → Option (List ShapeRow)
unfolding fetch_pages unique_shapes
get_shapes_chunked fuel rows = Option.map unique_shapes (fetch_pages fuel page_size rows none [])

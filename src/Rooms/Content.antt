-- ===== src/Rooms/Content.antt =====
-- What a room holds: `replaceShapes`, `listRoomSlides` and `replaceRoomSlides` of
-- apps/http-backend/src/controllers/room.controller.ts.
use Prim.Native.Char.{code as code_of}
use canvassync.Prelude.{
  ℕ, ◌+◌, String, Bool, false, ◌||◌, Option, none, some, List, [], ◌∷◌, ◌++◌, map, foldl, select,
  leb, nat_beq, ◌==◌, string_key, nat_key, if◌then◌else◌,
}
use canvassync.JsMap.{JsMap, empty, set, values}
use canvassync.JsValue.{JsValue}
use canvassync.Rooms.Reply.{Reply, done, api_error, ◌>>=◌, ◌>>◌, ensure, parsed, require_user_id}
use canvassync.Rooms.Table.{delete_many}
use canvassync.Rooms.Database.{Database}
use canvassync.Rooms.Access.{can_edit_room, has_room_access}

-- A shape of the body, as far as the handler reads it.
pub record PostedShape : Type 0 where
  pub id : String
  pub kind : String
  pub props : JsValue

-- A row of the table Shape. Its id is the text of the room's id, a colon and the id of the shape,
-- which names the two.
pub record StoredShape : Type 0 where
  pub room_id : ℕ
  pub shape_id : String
  pub kind : String
  pub props : JsValue
  pub deleted : Bool

-- How the transaction ends: it is done, or fails with a code of Prisma or another error.
pub data Write : Type 0 where
  written : Write
  refused : (code : String) → Write
  broken : Write

-- code.startsWith("P")
abbrev is_prisma_code : String → Bool
is_prisma_code String.[] = false
is_prisma_code (String.◌∷◌ c code) = nat_beq (code_of c) 80

-- The status of a failure by its code; none if the error is thrown on.
unfoldable pub write_status : String → Option ℕ
write_status code =
    if code == "P2021" || code == "P2022"
    then some 503
    else if code == "P2003"
    then some 404
    else if is_prisma_code code
    then some 503
    else none

-- The last shape with an id, at the place of the first.
unfoldable pub unique_posted : List PostedShape → List PostedShape
unique_posted shapes =
    values (foldl (λ (m : JsMap String PostedShape) shape. set m shape.id shape) empty shapes)

abbrev pub in_room : ℕ → StoredShape → Bool
in_room room_id row = row.room_id == room_id

abbrev pub stored : ℕ → PostedShape → StoredShape
stored room_id shape = record {
  room_id = room_id;
  shape_id = shape.id;
  kind = shape.kind;
  props = shape.props;
  deleted = false;
}

-- The transaction on the table.
unfoldable pub write_shapes : ℕ → List PostedShape → List StoredShape → List StoredShape
unfolding unique_posted
write_shapes room_id shapes rows =
    delete_many (in_room room_id) rows ++ map (stored room_id) (unique_posted shapes)

-- A failure leaves the table as it was. `none` for the status is an error that is thrown on, which
-- the error handler answers with 500.
unfoldable pub replace_shapes :
    Database
    → List StoredShape
    → Write
    → (user : Option String) (room_id : Option ℕ) (body : Option (List PostedShape))
    → Reply (List StoredShape)
unfolding write_shapes write_status
replace_shapes db rows write user room_id body = do
  room_id ← parsed room_id 400
  user_id ← require_user_id user
  ensure (can_edit_room db room_id user_id) 403
  shapes ← parsed body 400
  elim write [
    | written ↦ done (write_shapes room_id shapes rows)
    | refused code ↦ elim (write_status code) [
      | some status ↦ api_error status
      | none ↦ api_error 500
    ]
    | broken ↦ api_error 500
  ]

-- `SlideInputSchema` with its columns: the title and the rectangle of the camera.
pub record Slide : Type 0 where
  pub title : String
  pub frame : JsValue

pub record StoredSlide : Type 0 where
  pub room_id : ℕ
  pub position : ℕ
  pub slide : Slide

abbrev pub slide_in : ℕ → StoredSlide → Bool
slide_in room_id row = row.room_id == room_id

-- data.slides.map((slide, index) => …) from an index on
unfoldable pub numbered : ℕ → (index : ℕ) → List Slide → List StoredSlide
numbered room_id index [] = []
numbered room_id index (slide ∷ slides) =
    record { room_id = room_id; position = index; slide = slide }
    ∷ numbered room_id (index + 1) slides

-- orderBy: { position: "asc" }
unfoldable pub insert_slide : StoredSlide → List StoredSlide → List StoredSlide
insert_slide row [] = row ∷ []
insert_slide row (first ∷ rows) =
    let rest = insert_slide row rows in
    if leb row.position first.position then row ∷ first ∷ rows else first ∷ rest

unfoldable pub order_slides : List StoredSlide → List StoredSlide
unfolding insert_slide
order_slides [] = []
order_slides (row ∷ rows) = insert_slide row (order_slides rows)

unfoldable pub slides_of : ℕ → List StoredSlide → List Slide
unfolding order_slides
slides_of room_id rows = map (λ row. row.slide) (order_slides (select (slide_in room_id) rows))

unfoldable pub list_room_slides :
    Database → List StoredSlide → (user : Option String) (room_id : Option ℕ) → Reply (List Slide)
unfolding slides_of
list_room_slides db rows user room_id = do
  room_id ← parsed room_id 400
  user_id ← require_user_id user
  ensure (has_room_access db room_id user_id) 403
  done (slides_of room_id rows)

abbrev pub write_slides : ℕ → List Slide → List StoredSlide → List StoredSlide
write_slides room_id slides rows = delete_many (slide_in room_id) rows ++ numbered room_id 0 slides

-- The table afterwards, and the answer.
unfoldable pub replace_room_slides :
    Database
    → List StoredSlide
    → (user : Option String) (room_id : Option ℕ) (body : Option (List Slide))
    → Reply (List StoredSlide × List Slide)
unfolding slides_of numbered
replace_room_slides db rows user room_id body = do
  room_id ← parsed room_id 400
  slides ← parsed body 400
  user_id ← require_user_id user
  ensure (can_edit_room db room_id user_id) 403
  done (write_slides room_id slides rows, slides_of room_id (write_slides room_id slides rows))

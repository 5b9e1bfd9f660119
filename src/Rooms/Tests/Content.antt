-- ===== src/Rooms/Tests/Content.antt =====
-- Runs of the slides and the AI jobs of a room at concrete requests.
use canvassync.Prelude.{ℕ, String, true, false, none, some, List, [], ◌∷◌, ◌≡◌, refl}
use canvassync.JsMap
use canvassync.JsValue.{JsValue}
use canvassync.Rooms.Access.{can_edit_room, has_room_access}
use canvassync.Rooms.Reply.{done, api_error}
use canvassync.Rooms.Content.{
  Slide, StoredSlide, PostedShape, written, refused, replace_shapes, replace_room_slides,
}
use canvassync.Rooms.Deck.{IsDeck, replace_room_slides-IsDeck}
use canvassync.Rooms.AiJobs.{
  AiJobEntry, AiRequest, AiResult, AiEvent, generate, receive, finished, get_ai_generate_status,
}
use canvassync.Rooms.Jobs.{IsOwnJob, ai_jobs, get_ai_generate_status-IsOwnJob}
use canvassync.Rooms.Tests.{admitted}

abbrev slide : String → Slide
slide title = record { title = title; frame = JsValue.null }

abbrev row : ℕ → ℕ → String → StoredSlide
row room_id position title = record { room_id = room_id; position = position; slide = slide title }

abbrev old_slides : List StoredSlide
old_slides = row 1 0 "draft" ∷ row 2 0 "other" ∷ []

abbrev new_slides : List StoredSlide
new_slides = row 2 0 "other" ∷ row 1 0 "opening" ∷ row 1 1 "end" ∷ []

abbrev titles : List Slide
titles = slide "opening" ∷ slide "end" ∷ []

replaced_lem :
    replace_room_slides admitted old_slides (some "bob") (some 1) (some titles)
    ≡ done (new_slides, titles)
unfolding replace_room_slides can_edit_room
replaced_lem = refl

replace_room_slides-IsDeck_example : IsDeck 1 titles old_slides new_slides titles
replace_room_slides-IsDeck_example =
    replace_room_slides-IsDeck admitted old_slides new_slides (some "bob") 1 titles titles
      replaced_lem

abbrev a_request : AiRequest
a_request = record {
  mode = "generate";
  prompt = "a flow chart";
  history_block = "";
  reference_block = none;
}

abbrev a_result : AiResult
a_result = record {
  secret = some "s";
  job_id = some "job";
  shapes = some [];
  summary = none;
  error_message = none;
}

abbrev events : List AiEvent
events = receive a_result ∷ generate admitted "job" true (some "bob") (some 1) (some a_request) ∷ []

abbrev entry : AiJobEntry
entry = record {
  status = finished;
  room_id = 1;
  shapes = some [];
  summary = none;
  error_message = none;
}

told_lem :
    get_ai_generate_status admitted (ai_jobs "s" events) (some "ann") (some 1) (some "job")
    ≡ done entry
unfolding get_ai_generate_status ai_jobs JsMap.get JsMap.set has_room_access
told_lem = refl

get_ai_generate_status-IsOwnJob_example : IsOwnJob "s" events admitted (some "ann") 1 "job" entry
get_ai_generate_status-IsOwnJob_example =
    get_ai_generate_status-IsOwnJob "s" events admitted (some "ann") 1 "job" entry told_lem

abbrev posted : String → PostedShape
posted kind = record { id = "a"; kind = kind; props = JsValue.null }

-- The last shape with an id is stored, if the transaction is not refused.
stored_last :
    replace_shapes admitted [] written
      (some "bob")
      (some 1)
      (some (posted "rect" ∷ posted "circle" ∷ []))
    ≡ done (
        record {
          room_id = 1;
          shape_id = "a";
          kind = "circle";
          props = JsValue.null;
          deleted = false;
        }
        ∷ [])
unfolding replace_shapes can_edit_room JsMap.set
stored_last = refl

refused_lem :
    replace_shapes admitted [] (refused "P2003") (some "bob") (some 1) (some []) ≡ api_error 404
unfolding replace_shapes can_edit_room
refused_lem = refl

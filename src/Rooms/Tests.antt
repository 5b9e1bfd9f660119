-- ===== src/Rooms/Tests.antt =====
-- Runs of the room controller of apps/http-backend at concrete requests.
mod Content
use canvassync.Prelude.{ℕ, String, true, false, Option, none, some, List, [], ◌∷◌, ◌≡◌, refl, arith}
use mathlib.Core.Path.{subst}
use canvassync.JsValue.{JsValue}
use canvassync.Rooms.Reply.{done, api_error}
use canvassync.Rooms.Database.{Database, RoomAccessRequest, pending, approved, editor, viewer}
use canvassync.Rooms.Access.{RoomMemberParams, remove_room_member, update_room_member_role}
use canvassync.Rooms.Requests.{
  Decision, approve, reject, decide_room_access_request, load_request, commit_decision,
  request_room_access,
}
use canvassync.Rooms.Naming.{create_room}
use canvassync.Rooms.Invariant.{IsSound, is_member, is_approved}
use canvassync.Rooms.Series.{Call, create, request, decide, run, step, empty_database, run-IsSound}
use canvassync.Rooms.Admission.{OwnerApproval}
use canvassync.Rooms.Safety.{step_admits, decide_twice}
use canvassync.Rooms.Rights.{
  IsRemoved, IsViewer, remove_room_member_rights, update_room_member_role_viewer,
}
use canvassync.Rooms.Race.{decide_race}
use canvassync.Rooms.Shapes.{ShapeRow, get_shapes_chunked, fetch_pages}
use canvassync.Rooms.Ties.{get_shapes_chunked-batch, fetch_pages_ties}

abbrev named_alike : String → Option String
named_alike user = some user

-- Ann has a room, and Bob asks to come in.
abbrev asking : List Call
asking =
    create (some "ann") (some "plan")
    ∷ request (some "bob") (some (record { owner_handle = "ann"; slug = "plan"; note = none }))
    ∷ []

abbrev approval : Decision
approval = record { request_id = 1; action = approve; note = none; role = none }

abbrev refusal : Decision
refusal = record { request_id = 1; action = reject; note = none; role = none }

abbrev bobs_request : RoomAccessRequest
bobs_request = record {
  id = 1;
  room_id = 1;
  requester_id = "bob";
  status = pending;
  responded_at = none;
  decision_note = none;
}

abbrev room_one : Database
room_one = record {
  rooms = record { id = 1; slug = "plan"; admin_id = "ann" } ∷ [];
  members = [];
  requests = [];
  next_room_id = 2;
  next_request_id = 1;
  handle_of = named_alike;
}

abbrev asked : Database
asked = record room_one { requests = bobs_request ∷ []; next_request_id = 2 }

abbrev pub admitted : Database
admitted = record asked {
  members = record { room_id = 1; user_id = "bob"; role = editor } ∷ [];
  requests = record bobs_request { status = approved; responded_at = some 5 } ∷ [];
}

abbrev bob : RoomMemberParams
bob = record { room_id = 1; user_id = "bob" }

asked_lem : run (empty_database named_alike) asking ≡ asked
unfolding run step create_room request_room_access
asked_lem = refl

admitted_lem : decide_room_access_request 5 asked (some "ann") (some approval) ≡ done admitted
unfolding decide_room_access_request
admitted_lem = refl

run-IsSound_example : IsSound (run (empty_database named_alike) asking)
run-IsSound_example = run-IsSound named_alike asking

step_admits_example : OwnerApproval asked (decide 5 (some "ann") (some approval)) 1 "bob"
unfolding step decide_room_access_request
step_admits_example = step_admits asked (decide 5 (some "ann") (some approval)) 1 "bob" refl refl

decide_twice_example :
    decide_room_access_request 6 admitted (some "ann") (some refusal) ≡ api_error 409
decide_twice_example =
    decide_twice 5 6 asked admitted (some "ann") approval refusal admitted_lem refl

abbrev removed : Database
removed = record asked { requests = [] }

removed_lem : remove_room_member admitted (some "ann") (some bob) ≡ done removed
unfolding remove_room_member
removed_lem = refl

remove_room_member_rights_example : IsRemoved admitted removed 1 "bob"
remove_room_member_rights_example =
    remove_room_member_rights admitted removed (some "ann") bob removed_lem

abbrev watching : Database
watching = record admitted { members = record { room_id = 1; user_id = "bob"; role = viewer } ∷ [] }

watching_lem :
    update_room_member_role admitted (some "ann") (some bob) (some viewer) ≡ done watching
unfolding update_room_member_role
watching_lem = refl

loaded_lem : load_request asked (some "ann") (some approval) ≡ done (approval, bobs_request)
unfolding load_request
loaded_lem = refl

loaded_too : load_request asked (some "ann") (some refusal) ≡ done (refusal, bobs_request)
unfolding load_request
loaded_too = refl

asked-IsSound : IsSound asked
asked-IsSound = subst IsSound asked_lem (run-IsSound named_alike asking)

decide_race_example :
    (is_member
        (commit_decision 6 (commit_decision 5 asked approval bobs_request) refusal bobs_request)
        1
        "bob"
      ≡ true)
    × (is_approved
          (commit_decision 6 (commit_decision 5 asked approval bobs_request) refusal bobs_request)
          1
          "bob"
        ≡ false)
decide_race_example =
    decide_race 5 6 asked (some "ann") (some "ann") approval refusal bobs_request asked-IsSound
      loaded_lem loaded_too refl refl

abbrev shape : String → ℕ → ShapeRow
shape id created_at = record { id = id; created_at = created_at; props = JsValue.null }

abbrev three_shapes : List ShapeRow
three_shapes = shape "a" 3 ∷ shape "b" 4 ∷ shape "c" 9 ∷ []

abbrev tied : List ShapeRow
tied = shape "a" 3 ∷ shape "b" 3 ∷ shape "c" 3 ∷ []

get_shapes_chunked-batch_example : get_shapes_chunked 2 tied ≡ some tied
get_shapes_chunked-batch_example =
    get_shapes_chunked-batch 0 3 tied (refl, (refl, (refl, tt)))
      ((refl, (refl, tt)), ((refl, tt), (tt, tt)))

fetch_pages_ties_example : fetch_pages 9 2 tied none [] ≡ some (shape "a" 3 ∷ shape "b" 3 ∷ [])
fetch_pages_ties_example =
    fetch_pages_ties 2 7 3 tied (refl, (refl, (refl, tt))) (omega arith) (omega arith)

-- In pages of two, the third shape comes with the second page.
pages_of_two : fetch_pages 9 2 three_shapes none [] ≡ some three_shapes
unfolding fetch_pages
pages_of_two = refl

-- ===== src/Rooms/Series.antt =====
-- Series of requests to the handlers of
-- apps/http-backend/src/controllers/room.controller.ts that write rooms, members and requests.
use canvassync.Prelude.{ℕ, String, Option, List, [], ◌∷◌, refl, foldl, string_key, nat_key}
use canvassync.Rooms.Reply.{Reply, done, api_error, Returns, Returns-done}
use canvassync.Rooms.Database.{Database, RoomMemberRole}
use canvassync.Rooms.Access.{
  RoomMemberParams, is_owner, update_room_member_role, remove_room_member,
}
use canvassync.Rooms.Requests.{
  AccessRequestCreate, Decision, request_room_access, decide_room_access_request,
}
use canvassync.Rooms.Naming.{create_room, rename_room_slug}
use canvassync.Rooms.Invariant.{IsSound}
use canvassync.Rooms.Sound.{
  create_room-IsSound, rename_room_slug-IsSound, set_role-IsSound, remove-IsSound,
}
use canvassync.Rooms.Asking.{request-IsSound}
use canvassync.Rooms.Deciding.{decide-IsSound}

pub data Call : Type 0 where
  create : (user : Option String) (slug : Option String) → Call
  rename : (user : Option String) (room_id : Option ℕ) (slug : Option String) → Call
  request : (user : Option String) (body : Option AccessRequestCreate) → Call
  decide : (now : ℕ) (user : Option String) (decision : Option Decision) → Call
  set_role :
      (user : Option String) (params : Option RoomMemberParams) (role : Option RoomMemberRole)
      → Call
  remove : (user : Option String) (params : Option RoomMemberParams) → Call

abbrev pub after : Database → Reply Database → Database
after db (done db') = db'
after db (api_error status) = db

abbrev pub after_with {ℓ} : {A : Type ℓ} → Database → Reply (Database × A) → Database
after_with db (done (db', reply)) = db'
after_with db (api_error status) = db

-- A handler that throws leaves the tables as they were.
unfoldable pub step : Database → Call → Database
step db (create user slug) = after_with db (create_room db user slug)
step db (rename user room_id slug) = after db (rename_room_slug db user room_id slug)
step db (request user body) = after_with db (request_room_access db user body)
step db (decide now user decision) = after db (decide_room_access_request now db user decision)
step db (set_role user params role) = after db (update_room_member_role db user params role)
step db (remove user params) = after db (remove_room_member db user params)

unfoldable pub run : Database → List Call → Database
run db calls = foldl step db calls

abbrev pub empty_database : (String → Option String) → Database
empty_database handle_of = record {
  rooms = [];
  members = [];
  requests = [];
  next_room_id = 1;
  next_request_id = 1;
  handle_of = handle_of;
}

after-keeps :
    (db : Database) (m : Reply Database) → IsSound db → Returns IsSound m → IsSound (after db m)
after-keeps db (done db') sound kept = Returns-done kept refl
after-keeps db (api_error status) sound kept = sound

after_with-keeps {ℓ} :
    {A : Type ℓ} (db : Database) (m : Reply (Database × A))
    → IsSound db
    → Returns (λ (r : Database × A). IsSound r.0) m
    → IsSound (after_with db m)
after_with-keeps db (done r) sound kept = Returns-done kept refl
after_with-keeps db (api_error status) sound kept = sound

pub step-IsSound : (db : Database) (call : Call) → IsSound db → IsSound (step db call)
unfolding step
step-IsSound db (create user slug) sound =
    after_with-keeps db _ sound (create_room-IsSound db user slug sound)
step-IsSound db (rename user room_id slug) sound =
    after-keeps db _ sound (rename_room_slug-IsSound db user room_id slug sound)
step-IsSound db (request user body) sound =
    after_with-keeps db _ sound (request-IsSound db user body sound)
step-IsSound db (decide now user decision) sound =
    after-keeps db _ sound (decide-IsSound now db user decision sound)
step-IsSound db (set_role user params role) sound =
    after-keeps db _ sound (set_role-IsSound db user params role sound)
step-IsSound db (remove user params) sound =
    after-keeps db _ sound (remove-IsSound db user params sound)

run_from-IsSound : (db : Database) (calls : List Call) → IsSound db → IsSound (run db calls)
unfolding run
run_from-IsSound db [] sound = sound
run_from-IsSound db (call ∷ calls) sound =
    run_from-IsSound (step db call) calls (step-IsSound db call sound)

empty-IsSound : (handle_of : String → Option String) → IsSound (empty_database handle_of)
unfolding is_owner
empty-IsSound handle_of = record {
  keys = record {
    rooms = λ id. tt;
    slugs = λ a s. tt;
    members = λ r u. tt;
    ids = λ id. tt;
    requests = λ r u. tt;
    fresh = tt;
  };
  rooms = record { fresh = tt; asked = tt };
  granted = record { matched = λ r u. refl; apart = λ r u owner. refl };
}

-- After any series of requests that create and rename rooms, ask for access, decide, change roles
-- and remove members, from empty tables, the keys of the tables are unique, the pair of a room's
-- owner and slug among them; exactly those users are members of a room whose request is approved;
-- and no owner has asked for access to the own room.
pub run-IsSound :
    (handle_of : String → Option String) (calls : List Call)
    → IsSound (run (empty_database handle_of) calls)
run-IsSound handle_of calls =
    run_from-IsSound (empty_database handle_of) calls (empty-IsSound handle_of)

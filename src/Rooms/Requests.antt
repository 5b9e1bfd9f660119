-- ===== src/Rooms/Requests.antt =====
-- Asking for access to a room, and the owner's decision: `requestRoomAccess` and
-- `decideRoomAccessRequest` of apps/http-backend/src/controllers/room.controller.ts.
use canvassync.Prelude.{
  ℕ, ◌+◌, String, Bool, false, not, ◌&&◌, Option, none, some, List, [], ◌∷◌, ◌++◌, any, find, ◌==◌,
  string_key, nat_key, if◌then◌else◌,
}
use canvassync.Rooms.Reply.{Reply, done, ◌>>=◌, ◌>>◌, ensure, parsed, require_user_id}
use canvassync.Rooms.Table.{update_many}
use canvassync.Rooms.Database.{
  Database, Room, RoomMember, RoomMemberRole, editor, RoomAccessRequest, AccessRequestStatus,
  pending, approved, rejected, room_is, member_is, request_is, request_of, is_pending, same_handle,
}

-- `RoomAccessRequestCreateSchema`
pub record AccessRequestCreate : Type 0 where
  pub owner_handle : String
  pub slug : String
  pub note : Option String

pub data AccessReply : Type 0 where
  already_member already_pending requested : AccessReply

-- An `undefined` value in `data` leaves the column as it is.
abbrev pub keep_or {ℓ} : {A : Type ℓ} → Option A → Option A → Option A
keep_or old none = old
keep_or old (some new) = some new

-- Writes the request of a user who has none that is pending.
unfoldable pub place_request :
    Database → (room_id : ℕ) (requester_id : String) (note : Option String) → Database
place_request db room_id requester_id note =
    elim (find (request_of room_id requester_id) db.requests) [
      | none ↦ record db {
        requests =
            db.requests
            ++ record {
              id = db.next_request_id;
              room_id = room_id;
              requester_id = requester_id;
              status = pending;
              responded_at = none;
              decision_note = note;
            }
              ∷ [];
        next_request_id = db.next_request_id + 1;
      }
      | some existing ↦ record db {
        requests =
            update_many (request_is existing.id)
              (λ request. record request {
                status = pending;
                responded_at = none;
                decision_note = keep_or request.decision_note note;
              })
              db.requests;
      }
    ]

abbrev pub has_pending : Database → ℕ → String → Bool
has_pending db room_id user_id = elim (find (request_of room_id user_id) db.requests) [
  | none ↦ false
  | some existing ↦ is_pending existing.status
]

-- The `where` clause of the room that is asked for.
abbrev pub named_room : Database → AccessRequestCreate → Room → Bool
named_room db body room =
    room.slug == body.slug && same_handle body.owner_handle (db.handle_of room.admin_id)

-- What the handler does once it has the room.
unfoldable pub answer_request :
    Database → (room_id : ℕ) (requester_id : String) (note : Option String) → Database × AccessReply
unfolding place_request
answer_request db room_id requester_id note =
    if any (member_is room_id requester_id) db.members
    then (db, already_member)
    else if has_pending db room_id requester_id
    then (db, already_pending)
    else (place_request db room_id requester_id note, requested)

unfoldable pub request_room_access :
    Database
    → (user : Option String) (body : Option AccessRequestCreate) → Reply (Database × AccessReply)
unfolding answer_request
request_room_access db user body = do
  body ← parsed body 400
  requester_id ← require_user_id user
  room ← parsed (find (named_room db body) db.rooms) 404
  ensure (not (room.admin_id == requester_id)) 400
  done (answer_request db room.id requester_id body.note)

pub data DecisionAction : Type 0 where
  approve reject : DecisionAction

-- `RoomAccessRequestDecisionSchema`
pub record Decision : Type 0 where
  pub request_id : ℕ
  pub action : DecisionAction
  pub note : Option String
  pub role : Option RoomMemberRole

-- What the handler reads and tests before its transaction.
unfoldable pub load_request :
    Database
    → (user : Option String) (decision : Option Decision) → Reply (Decision × RoomAccessRequest)
load_request db user decision = do
  decision ← parsed decision 400
  owner_id ← require_user_id user
  request ← parsed (find (request_is decision.request_id) db.requests) 404
  ensure (any (λ room. room_is request.room_id room && room.admin_id == owner_id) db.rooms) 403
  ensure (is_pending request.status) 409
  done (decision, request)

abbrev pub decided_status : DecisionAction → AccessRequestStatus
decided_status approve = approved
decided_status reject = rejected

abbrev pub role_or : RoomMemberRole → Option RoomMemberRole → RoomMemberRole
role_or role none = role
role_or role (some new) = new

-- `tx.roomMember.upsert`
unfoldable pub upsert_member :
    List RoomMember
    → (room_id : ℕ) (user_id : String) (role : Option RoomMemberRole) → List RoomMember
upsert_member members room_id user_id role =
    if any (member_is room_id user_id) members
    then update_many (member_is room_id user_id)
        (λ member. record member { role = role_or member.role role }) members
    else members ++ record { room_id = room_id; user_id = user_id; role = role_or editor role } ∷ []

abbrev pub members_after :
    DecisionAction → List RoomMember → ℕ → String → Option RoomMemberRole → List RoomMember
members_after approve members room_id user_id role = upsert_member members room_id user_id role
members_after reject members room_id user_id role = members

-- The transaction. `now` is `new Date()`.
unfoldable pub commit_decision : (now : ℕ) → Database → Decision → RoomAccessRequest → Database
unfolding upsert_member
commit_decision now db decision request = record db {
  requests =
      update_many (request_is request.id)
        (λ row. record row {
          status = decided_status decision.action;
          responded_at = some now;
          decision_note = keep_or row.decision_note decision.note;
        })
        db.requests;
  members =
      members_after decision.action db.members request.room_id request.requester_id decision.role;
}

unfoldable pub decide_room_access_request :
    (now : ℕ) → Database → (user : Option String) (decision : Option Decision) → Reply Database
unfolding load_request commit_decision
decide_room_access_request now db user decision = do
  (decision, request) ← load_request db user decision
  done (commit_decision now db decision request)

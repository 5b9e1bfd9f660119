-- ===== src/Rooms/Database.antt =====
-- The tables of packages/db/prisma/schema.prisma that hold who may enter a room: Room,
-- RoomMember and RoomAccessRequest, with the columns that the controller reads or writes.
use canvassync.Prelude.{
  ℕ, String, Bool, true, false, ◌&&◌, Option, none, some, List, ◌==◌, string_key, nat_key,
}

pub data RoomMemberRole : Type 0 where
  editor viewer : RoomMemberRole

pub data AccessRequestStatus : Type 0 where
  pending approved rejected : AccessRequestStatus

pub record Room : Type 0 where
  pub id : ℕ
  pub slug : String
  pub admin_id : String

pub record RoomMember : Type 0 where
  pub room_id : ℕ
  pub user_id : String
  pub role : RoomMemberRole

pub record RoomAccessRequest : Type 0 where
  pub id : ℕ
  pub room_id : ℕ
  pub requester_id : String
  pub status : AccessRequestStatus
  pub responded_at : Option ℕ
  pub decision_note : Option String

-- `next_room_id` and `next_request_id` stand for `@default(autoincrement())`; `handle_of` is the
-- column `handle` of the table User.
pub record Database : Type 0 where
  pub rooms : List Room
  pub members : List RoomMember
  pub requests : List RoomAccessRequest
  pub next_room_id : ℕ
  pub next_request_id : ℕ
  pub handle_of : String → Option String

-- The `where` clauses by a unique key: `id`, `roomId_userId` and `roomId_requesterId`.
abbrev pub room_is : ℕ → Room → Bool
room_is i room = room.id == i

-- `@@unique([adminId, slug])`
abbrev pub slug_of : String → String → Room → Bool
slug_of admin_id slug room = room.admin_id == admin_id && room.slug == slug

abbrev pub member_is : ℕ → String → RoomMember → Bool
member_is room_id user_id member = member.room_id == room_id && member.user_id == user_id

abbrev pub request_is : ℕ → RoomAccessRequest → Bool
request_is i request = request.id == i

abbrev pub request_of : ℕ → String → RoomAccessRequest → Bool
request_of room_id user_id request = request.room_id == room_id && request.requester_id == user_id

abbrev pub is_pending : AccessRequestStatus → Bool
is_pending pending = true
is_pending status = false

abbrev pub is_editor : RoomMemberRole → Bool
is_editor editor = true
is_editor viewer = false

-- `admin: { handle }`
abbrev pub same_handle : String → Option String → Bool
same_handle handle none = false
same_handle handle (some other) = other == handle

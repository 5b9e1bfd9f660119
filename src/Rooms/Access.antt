-- ===== src/Rooms/Access.antt =====
-- Who may enter and who may edit a room: the guards of
-- apps/http-backend/src/controllers/room.controller.ts, and its handlers for the list of members.
use canvassync.Prelude.{
  ℕ, String, Bool, ◌&&◌, ◌||◌, Option, List, any, select, ◌==◌, string_key, nat_key,
}
use canvassync.Rooms.Reply.{Reply, done, ◌>>=◌, ◌>>◌, ensure, parsed, require_user_id}
use canvassync.Rooms.Table.{update_many, delete_many}
use canvassync.Rooms.Database.{
  Database, RoomMember, RoomMemberRole, room_is, member_is, request_of, is_editor,
}

unfoldable pub is_owner : Database → ℕ → String → Bool
is_owner db room_id user_id =
    any (λ room. room_is room_id room && room.admin_id == user_id) db.rooms

-- A row of the room that passes the `OR` of `canEditRoom`.
unfoldable pub can_edit_room : Database → ℕ → String → Bool
can_edit_room db room_id user_id =
    any
      (λ room.
        room_is room_id room
        && (room.admin_id == user_id
            || any (λ member. member_is room_id user_id member && is_editor member.role)
                db.members))
      db.rooms

unfoldable pub has_room_access : Database → ℕ → String → Bool
has_room_access db room_id user_id =
    any
      (λ room.
        room_is room_id room
        && (room.admin_id == user_id || any (member_is room_id user_id) db.members))
      db.rooms

unfoldable pub assert_owner_room_access : Database → ℕ → String → Reply (Unit {0})
unfolding is_owner
assert_owner_room_access db room_id user_id = ensure (is_owner db room_id user_id) 403

-- The parameters of the routes for one member: none if the schema refuses them.
pub record RoomMemberParams : Type 0 where
  pub room_id : ℕ
  pub user_id : String

unfoldable pub list_room_members :
    Database → (user : Option String) (room_id : Option ℕ) → Reply (List RoomMember)
unfolding assert_owner_room_access
list_room_members db user room_id = do
  room_id ← parsed room_id 400
  user_id ← require_user_id user
  assert_owner_room_access db room_id user_id
  done (select (λ member. member.room_id == room_id) db.members)

unfoldable pub update_room_member_role :
    Database
    → (user : Option String) (params : Option RoomMemberParams) (role : Option RoomMemberRole)
    → Reply Database
unfolding assert_owner_room_access
update_room_member_role db user params role = do
  params ← parsed params 400
  role ← parsed role 400
  user_id ← require_user_id user
  assert_owner_room_access db params.room_id user_id
  ensure (any (member_is params.room_id params.user_id) db.members) 404
  done (record db {
    members =
        update_many (member_is params.room_id params.user_id)
          (λ member. record member { role = role }) db.members;
  })

unfoldable pub remove_room_member :
    Database → (user : Option String) (params : Option RoomMemberParams) → Reply Database
unfolding assert_owner_room_access
remove_room_member db user params = do
  params ← parsed params 400
  user_id ← require_user_id user
  assert_owner_room_access db params.room_id user_id
  done (record db {
    members = delete_many (member_is params.room_id params.user_id) db.members;
    requests = delete_many (request_of params.room_id params.user_id) db.requests;
  })

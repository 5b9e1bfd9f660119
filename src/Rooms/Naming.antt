-- ===== src/Rooms/Naming.antt =====
-- Rooms and their slugs: `createRoom`, `renameRoomSlug`, `getRoomIdFromSlug`,
-- `getRoomByOwnerAndSlug` and `getInviteLink` of
-- apps/http-backend/src/controllers/room.controller.ts.
use Prim.Native.String.{◌++◌}
use mathlib.Core.List
use canvassync.Prelude.{
  ℕ, ◌+◌, String, not, ◌&&◌, ◌||◌, Option, none, some, [], ◌∷◌, any, find, ◌==◌, string_key,
  nat_key,
}
use canvassync.Http.Request.{truthy, trim}
use canvassync.Rooms.Reply.{Reply, done, ◌>>=◌, ◌>>◌, ensure, parsed, require_user_id}
use canvassync.Rooms.Table.{update_many}
use canvassync.Rooms.Database.{Database, Room, room_is, member_is, same_handle, slug_of}
use canvassync.Rooms.Access.{assert_owner_room_access}

unfoldable pub build_canonical_room_path : (handle : Option String) → (slug : String) → String
build_canonical_room_path none slug = "/canvas/" ++ slug
build_canonical_room_path (some text) slug = elim (truthy (some (trim text))) [
  | none ↦ "/canvas/" ++ slug
  | some handle ↦ "/room/" ++ handle ++ "/" ++ slug
]

-- The `include: { admin }` of a room.
abbrev pub canonical_path : Database → Room → String
canonical_path db room = build_canonical_room_path (db.handle_of room.admin_id) room.slug

abbrev pub with_room : Database → Room → Database × Room
with_room db room =
    (record db { rooms = List.◌++◌ db.rooms (room ∷ []); next_room_id = db.next_room_id + 1 }, room)

abbrev pub with_slug : Database → ℕ → String → Database
with_slug db room_id slug = record db {
  rooms = update_many (room_is room_id) (λ room. record room { slug = slug }) db.rooms;
}

-- A slug that the owner has used already makes the insertion fail with P2002.
unfoldable pub create_room :
    Database → (user : Option String) (slug : Option String) → Reply (Database × Room)
create_room db user slug = do
  slug ← parsed slug 400
  user_id ← require_user_id user
  ensure (not (any (slug_of user_id slug) db.rooms)) 409
  done (with_room db (record { id = db.next_room_id; slug = slug; admin_id = user_id }))

-- The room itself may keep its slug.
unfoldable pub rename_room_slug :
    Database → (user : Option String) (room_id : Option ℕ) (slug : Option String) → Reply Database
unfolding assert_owner_room_access
rename_room_slug db user room_id slug = do
  room_id ← parsed room_id 400
  slug ← parsed slug 400
  user_id ← require_user_id user
  assert_owner_room_access db room_id user_id
  ensure (not (any (λ room. slug_of user_id slug room && not (room_is room_id room)) db.rooms)) 409
  done (with_slug db room_id slug)

unfoldable pub get_room_id_from_slug :
    Database → (user : Option String) (slug : Option String) → Reply Room
get_room_id_from_slug db user slug = do
  slug ← parsed slug 400
  user_id ← require_user_id user
  parsed (find (slug_of user_id slug) db.rooms) 404

unfoldable pub get_room_by_owner_and_slug :
    Database → (user : Option String) (route : Option (String × String)) → Reply Room
get_room_by_owner_and_slug db user route = do
  (owner_handle, slug) ← parsed route 400
  user_id ← require_user_id user
  parsed
      (find
        (λ room.
          room.slug == slug
          && same_handle owner_handle (db.handle_of room.admin_id)
          && (room.admin_id == user_id || any (member_is room.id user_id) db.members))
        db.rooms)
      403

-- `origin` is the protocol and the host of the request.
unfoldable pub get_invite_link :
    (origin : String) → Database → (user : Option String) (room_id : Option ℕ) → Reply String
unfolding assert_owner_room_access
get_invite_link origin db user room_id = do
  room_id ← parsed room_id 400
  user_id ← require_user_id user
  assert_owner_room_access db room_id user_id
  room ← parsed (find (room_is room_id) db.rooms) 403
  done (origin ++ canonical_path db room)

-- ===== src/Rooms/Sound.antt =====
-- What the owner's handlers of apps/http-backend/src/controllers/room.controller.ts keep: creating
-- and renaming a room, and changing or removing a member.
use canvassync.Prelude.{ℕ, ◌<◌, String, not, Option, any, All-select, string_key, nat_key, arith}
use canvassync.Rooms.Reply.{parsed, require_user_id, Returns, Returns->>=, Returns->>, done_lem}
use canvassync.Rooms.Database.{slug_of, Database, Room, RoomMemberRole, member_is}
use canvassync.Rooms.Access.{
  RoomMemberParams, is_owner, assert_owner_room_access, update_room_member_role, remove_room_member,
}
use canvassync.Rooms.Naming.{create_room, rename_room_slug}
use canvassync.Rooms.Invariant.{IsSound}
use canvassync.Rooms.Founding.{founded-IsSound, renamed-IsSound}
use canvassync.Rooms.Keys.{remove-HasKeys, set_role-HasKeys}
use canvassync.Rooms.Grants.{remove-IsGranted, set_role-IsGranted}

pub create_room-IsSound :
    (db : Database) (user slug : Option String)
    → IsSound db
    → Returns (λ (r : Database × Room). IsSound r.0) (create_room db user slug)
unfolding create_room
create_room-IsSound db user slug sound = Returns->>= (parsed slug 400) λ slug' e.
    Returns->>= (require_user_id user) λ user_id e'.
      Returns->> (not (any (slug_of user_id slug') db.rooms)) 409
        λ free. done_lem (founded-IsSound db slug' user_id sound (ground (arith, free)))

pub rename_room_slug-IsSound :
    (db : Database) (user : Option String) (room_id : Option ℕ) (slug : Option String)
    → IsSound db
    → Returns IsSound (rename_room_slug db user room_id slug)
unfolding rename_room_slug assert_owner_room_access
rename_room_slug-IsSound db user room_id slug sound = Returns->>= (parsed room_id 400) λ room_id' e.
    Returns->>= (parsed slug 400) λ slug' e'. Returns->>= (require_user_id user) λ user_id e''.
      Returns->> (is_owner db room_id' user_id) 403 λ owner. Returns->> _ 409 λ free.
        done_lem (renamed-IsSound db room_id' slug' sound user_id owner (ground (arith, free)))

pub set_role-IsSound :
    (db : Database) (user : Option String) (params : Option RoomMemberParams)
    (role : Option RoomMemberRole)
    → IsSound db
    → Returns IsSound (update_room_member_role db user params role)
unfolding update_room_member_role assert_owner_room_access
set_role-IsSound db user params role sound = Returns->>= (parsed params 400) λ p e.
    Returns->>= (parsed role 400) λ role' e'. Returns->>= (require_user_id user) λ user_id e''.
      Returns->> (is_owner db p.room_id user_id) 403 λ owner.
        Returns->> (any (member_is p.room_id p.user_id) db.members) 404 λ there. done_lem record {
          keys = set_role-HasKeys db p.room_id p.user_id role' sound.keys;
          rooms = record { fresh = sound.rooms.fresh; asked = sound.rooms.asked };
          granted = set_role-IsGranted db p.room_id p.user_id role' sound.granted;
        }

pub remove-IsSound :
    (db : Database) (user : Option String) (params : Option RoomMemberParams)
    → IsSound db
    → Returns IsSound (remove_room_member db user params)
unfolding remove_room_member assert_owner_room_access
remove-IsSound db user params sound = Returns->>= (parsed params 400) λ p e.
    Returns->>= (require_user_id user) λ user_id e''.
      Returns->> (is_owner db p.room_id user_id) 403 λ owner. done_lem record {
        keys = remove-HasKeys db p.room_id p.user_id sound.keys;
        rooms = record {
          fresh = sound.rooms.fresh;
          asked =
              All-select (λ q. q.room_id < db.next_room_id) (λ q. q.room_id < db.next_room_id) _
                db.requests (λ q _ h. h) sound.rooms.asked;
        };
        granted = remove-IsGranted db p.room_id p.user_id sound.granted;
      }

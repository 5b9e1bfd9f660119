-- ===== src/Rooms/Rights.antt =====
-- What removing a member and changing a role do to a user's rights in a room, and what two
-- decisions do that were both checked before either was written:
-- apps/http-backend/src/controllers/room.controller.ts.
use canvassync.Prelude.{
  ℕ, String, Bool, true, false, ◌&&◌, ◌||◌, Option, none, some, List, [], ◌∷◌, ◌≡◌, refl, ◌∙◌, inl,
  inr, any, find, Bool-cases, ◌==◌, string_key, nat_key, arith,
}
use canvassync.Rooms.Reply.{
  done, require_user_id, Returns, Returns-done, Returns->>=, Returns->>, done_lem,
}
use canvassync.Rooms.Table.{any-cong, any-map, any-deleted, update_many, find-deleted}
use canvassync.Rooms.Database.{
  Database, RoomMember, room_is, member_is, request_of, is_editor, viewer,
}
use canvassync.Rooms.Access.{
  RoomMemberParams, is_owner, assert_owner_room_access, has_room_access, can_edit_room,
  update_room_member_role, remove_room_member,
}
use canvassync.Rooms.Invariant.{is_member, member_keeps_pair}

abbrev edits : ℕ → String → RoomMember → Bool
edits room_id user_id member = member_is room_id user_id member && is_editor member.role

-- Nobody edits without being a member.
outsiders_edit :
    (r : ℕ) (u : String) (members : List RoomMember)
    → any (member_is r u) members ≡ false
    → any (edits r u) members ≡ false
outsiders_edit r u [] h = refl
outsiders_edit r u (x ∷ members) h = ground (arith, outsiders_edit r u members)

only_owner :
    (db : Database) (r : ℕ) (u : String) (by_membership : Bool)
    → by_membership ≡ false
    → any (λ room. room_is r room && (room.admin_id == u || by_membership)) db.rooms
      ≡ is_owner db r u
unfolding is_owner
only_owner db r u by_membership none_such =
    any-cong _ _ db.rooms (λ room. ground (arith, none_such))

-- The rights of a user with a role that does not edit.
viewer_edits :
    (r : ℕ) (u : String) (members : List RoomMember)
    → any
        (edits r u)
        (update_many (member_is r u) (λ member. record member { role = viewer }) members)
      ≡ false
viewer_edits r u [] = refl
viewer_edits r u (x ∷ members) = elim (Bool-cases (member_is r u x)) [
  | inl own ↦ rw own (ground (arith, viewer_edits r u members))
  | inr other ↦ rw other (ground (arith, viewer_edits r u members))
]

-- What a removed user is left with.
pub record IsRemoved (db db' : Database) (r : ℕ) (u : String) : Type 0 where
  pub access : has_room_access db' r u ≡ is_owner db r u
  pub edit : can_edit_room db' r u ≡ is_owner db r u
  pub request : find (request_of r u) db'.requests ≡ none

removed :
    (db : Database) (user : Option String) (params : RoomMemberParams)
    → Returns
        (λ db'. IsRemoved db db' params.room_id params.user_id)
        (remove_room_member db user (some params))
unfolding remove_room_member assert_owner_room_access has_room_access can_edit_room
removed db user params = Returns->>= (require_user_id user) λ user_id e.
    Returns->> (is_owner db params.room_id user_id) 403 λ owner.
      let gone =
        any-deleted (member_is params.room_id params.user_id)
          (member_is params.room_id params.user_id) db.members (λ x h. h) in
      done_lem record {
        access = only_owner db params.room_id params.user_id _ gone;
        edit =
            only_owner db params.room_id params.user_id _
              (outsiders_edit params.room_id params.user_id _ gone);
        request =
            find-deleted (request_of params.room_id params.user_id)
              (request_of params.room_id params.user_id) db.requests (λ x h. h);
      }

-- What a member with the role VIEWER is left with.
pub record IsViewer (db db' : Database) (r : ℕ) (u : String) : Type 0 where
  pub access : has_room_access db' r u ≡ has_room_access db r u
  pub inside : is_member db' r u ≡ true
  pub edit : can_edit_room db' r u ≡ is_owner db r u

made_viewer :
    (db : Database) (user : Option String) (params : RoomMemberParams)
    → Returns
        (λ db'. IsViewer db db' params.room_id params.user_id)
        (update_room_member_role db user (some params) (some viewer))
unfolding update_room_member_role assert_owner_room_access has_room_access can_edit_room
made_viewer db user params = Returns->>= (require_user_id user) λ user_id e.
    Returns->> (is_owner db params.room_id user_id) 403 λ owner.
      Returns->> (any (member_is params.room_id params.user_id) db.members) 404 λ there.
        let same = any-map (member_is params.room_id params.user_id) _ db.members (
          member_keeps_pair params.room_id params.room_id params.user_id params.user_id
            (λ m. viewer)) in
        done_lem record {
          access = rw same refl;
          inside = same ∙ there;
          edit =
              only_owner db params.room_id params.user_id _
                (viewer_edits params.room_id params.user_id db.members);
        }

-- After removeRoomMember the user has access to the room, and may edit it, only as its owner, and
-- no request of the user for the room is left.
pub remove_room_member_rights :
    (db db' : Database) (user : Option String) (params : RoomMemberParams)
    → remove_room_member db user (some params) ≡ done db'
    → IsRemoved db db' params.room_id params.user_id
remove_room_member_rights db db' user params e = Returns-done (removed db user params) e

-- After a member's role is set to VIEWER the user is a member still and has the same access, and
-- may edit the room only as its owner.
pub update_room_member_role_viewer :
    (db db' : Database) (user : Option String) (params : RoomMemberParams)
    → update_room_member_role db user (some params) (some viewer) ≡ done db'
    → IsViewer db db' params.room_id params.user_id
update_room_member_role_viewer db db' user params e = Returns-done (made_viewer db user params) e

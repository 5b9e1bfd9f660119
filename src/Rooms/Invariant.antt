-- ===== src/Rooms/Invariant.antt =====
-- What holds of the tables between two requests to
-- apps/http-backend/src/controllers/room.controller.ts.
use canvassync.Prelude.{
  ℕ, ◌<◌, String, Bool, true, false, ◌&&◌, Option, none, some, List, ◌≡◌, refl, ◌∙◌, inl, inr, any,
  find, All, Bool-cases, Option-cases, ◌==◌, string_key, nat_key, if◌then◌else◌, arith,
}
use canvassync.Rooms.Table.{
  update_many, Once, any-map, any-append_one, find-Once, find-map, find-passes,
}
use canvassync.Rooms.Database.{
  Database, RoomMember, RoomMemberRole, RoomAccessRequest, approved, room_is, member_is, request_is,
  request_of, slug_of,
}
use canvassync.Rooms.Requests.{upsert_member, role_or}
use canvassync.Rooms.Access.{is_owner}

abbrev pub is_member : Database → ℕ → String → Bool
is_member db room_id user_id = any (member_is room_id user_id) db.members

abbrev pub status_approved : Option RoomAccessRequest → Bool
status_approved none = false
status_approved (some request) = elim request.status [ approved ↦ true | _ ↦ false ]

abbrev pub is_approved : Database → ℕ → String → Bool
is_approved db room_id user_id = status_approved (find (request_of room_id user_id) db.requests)

-- The unique keys of the schema.
pub record HasKeys (db : Database) : Type 0 where
  pub rooms : (id : ℕ) → Once (room_is id) db.rooms
  pub slugs : (admin_id slug : String) → Once (slug_of admin_id slug) db.rooms
  pub members : (room_id : ℕ) (user_id : String) → Once (member_is room_id user_id) db.members
  pub ids : (id : ℕ) → Once (request_is id) db.requests
  pub requests : (room_id : ℕ) (user_id : String) → Once (request_of room_id user_id) db.requests
  pub fresh : All (λ request. request.id < db.next_request_id) db.requests

-- The ids that are still to be given name no room, and no request asks for such a room.
pub record HasRooms (db : Database) : Type 0 where
  pub fresh : All (λ room. room.id < db.next_room_id) db.rooms
  pub asked : All (λ request. request.room_id < db.next_room_id) db.requests

-- The members of a room are those whose request the owner has approved, and the owner is none of
-- them and has asked for nothing.
pub record IsGranted (db : Database) : Type 0 where
  pub matched :
      (room_id : ℕ) (user_id : String)
      → is_member db room_id user_id ≡ is_approved db room_id user_id
  pub apart :
      (room_id : ℕ) (user_id : String)
      → is_owner db room_id user_id ≡ true
      → find (request_of room_id user_id) db.requests ≡ none

-- The change that a write makes in the rows it selects, as `update_many` applies it.
pub update_keeps_pair :
    (i r : ℕ) (u : String) (change : RoomAccessRequest → RoomAccessRequest)
    → ((row : RoomAccessRequest) → request_of r u (change row) ≡ request_of r u row)
    → (row : RoomAccessRequest)
    → request_of r u (if request_is i row then change row else row) ≡ request_of r u row
update_keeps_pair i r u change keep row = elim (Bool-cases (request_is i row)) [
  | inl e ↦ rw e (keep row)
  | inr e ↦ rw e refl
]

pub member_keeps_pair :
    (r' r : ℕ) (u' u : String) (role : RoomMember → RoomMemberRole) (row : RoomMember)
    → member_is r u (if member_is r' u' row then record row { role = role row } else row)
      ≡ member_is r u row
member_keeps_pair r' r u' u role row = elim (Bool-cases (member_is r' u' row)) [
  | inl e ↦ rw e refl
  | inr e ↦ rw e refl
]

pub same_pair : (r' r : ℕ) (u' u : String) → (r' == r && u' == u) ≡ true → (r' ≡ r) × (u' ≡ u)
same_pair r' r u' u h = (ground arith, (string_key.matches_iff u' u).0 (ground arith))

pub any-change :
    (members : List RoomMember) (r' r : ℕ) (u' u : String) (role : Option RoomMemberRole)
    → any (member_is r u) (
        update_many
          (member_is r' u')
          (λ member. record member { role = role_or member.role role })
          members)
      ≡ any (member_is r u) members
any-change members r' r u' u role =
    any-map (member_is r u) _ members (member_keeps_pair r' r u' u (λ m. role_or m.role role))

pub any-upsert :
    (members : List RoomMember) (r' r : ℕ) (u' u : String) (role : Option RoomMemberRole)
    → any (member_is r u) (upsert_member members r' u' role)
      ≡ (if r' == r && u' == u then true else any (member_is r u) members)
unfolding upsert_member
any-upsert members r' r u' u role = elim (Bool-cases (any (member_is r' u') members)) [
  | inl there ↦ rw there (elim (Bool-cases (r' == r && u' == u)) [
    | inl same ↦
        let (er, eu) = same_pair r' r u' u same in
        rw same (any-change members r' r u' u role ∙ rw (← er, ← eu) there)
    | inr other ↦ rw other (any-change members r' r u' u role)
  ])
  | inr absent ↦ rw absent (any-append_one (member_is r u) members _ ∙ ground arith)
]

-- A write to the row with an id, as the lookup of a user's request sees it.
pub find-update :
    (i r : ℕ) (u : String) (change : RoomAccessRequest → RoomAccessRequest)
    (rows : List RoomAccessRequest) (request : RoomAccessRequest)
    → ((row : RoomAccessRequest) → request_of r u (change row) ≡ request_of r u row)
    → Once (request_is i) rows
    → Once (request_of r u) rows
    → find (request_is i) rows ≡ some request
    → find (request_of r u) (update_many (request_is i) change rows)
      ≡ (if request_of r u request then some (change request) else find (request_of r u) rows)
find-update i r u change rows request keep ids pairs found =
    find-map (request_of r u) _ rows (update_keeps_pair i r u change keep)
    ∙ elim (Bool-cases (request_of r u request)) [
      | inl own ↦
          rw (own, find-Once (request_is i) (request_of r u) rows pairs found own)
            (rw (find-passes (request_is i) rows found) refl)
      | inr other ↦ rw other (elim (Option-cases (find (request_of r u) rows)) [
        | inl e ↦ rw e refl
        | inr (q, e) ↦ rw e (elim (Bool-cases (request_is i q)) [
          | inl same ↦ cc (
            find-Once (request_of r u) (request_is i) rows ids e same,
            find-passes (request_of r u) rows e,
          )
          | inr apart ↦ rw apart refl
        ])
      ])
    ]

-- What holds between two requests.
pub record IsSound (db : Database) : Type 0 where
  pub keys : HasKeys db
  pub rooms : HasRooms db
  pub granted : IsGranted db

-- ===== src/Rooms/Keys.antt =====
-- The unique keys under the writes of the handlers of
-- apps/http-backend/src/controllers/room.controller.ts.
use canvassync.Prelude.{
  ℕ, ◌+◌, ◌<◌, String, false, Option, List, [], ◌∷◌, ◌≡◌, refl, inl, inr, any, find, All,
  All-append, All-impl, All-map, All-select, Bool-cases, Option-cases, string_key, nat_key, arith,
}
use canvassync.Rooms.Table.{
  update_many, delete_many, Once, any-of_find, Once-map, Once-delete, Once-append_one,
}
use canvassync.Rooms.Database.{
  Database, RoomMember, RoomMemberRole, RoomAccessRequest, member_is, request_is, request_of,
}
use canvassync.Rooms.Requests.{
  approve, reject, Decision, upsert_member, members_after, role_or, commit_decision, place_request,
}
use canvassync.Rooms.Invariant.{HasKeys, member_keeps_pair, same_pair}

Once-upsert :
    (members : List RoomMember) (r' r : ℕ) (u' u : String) (role : Option RoomMemberRole)
    → Once (member_is r u) members
    → Once (member_is r u) (upsert_member members r' u' role)
unfolding upsert_member
Once-upsert members r' r u' u role once = elim (Bool-cases (any (member_is r' u') members)) [
  | inl there ↦ rw there (
      Once-map (member_is r u) _ members (member_keeps_pair r' r u' u (λ m. role_or m.role role))
        once)
  | inr absent ↦ rw absent (
      Once-append_one (member_is r u) members _
        (λ own. let (er, eu) = same_pair r' r u' u own in rw (← er, ← eu) absent) once)
]

-- A write to a row of the requests that leaves its keys alone.
module _ (db : Database) (i : ℕ) (change : RoomAccessRequest → RoomAccessRequest)
    (keep_id : (row : RoomAccessRequest) → (change row).id ≡ row.id)
    (keep_room : (row : RoomAccessRequest) → (change row).room_id ≡ row.room_id)
    (keep_user : (row : RoomAccessRequest) → (change row).requester_id ≡ row.requester_id) where
  pub update-HasKeys :
      HasKeys db → HasKeys (record db { requests = update_many (request_is i) change db.requests })
  update-HasKeys keys = record {
    rooms = keys.rooms;
    slugs = keys.slugs;
    members = keys.members;
    ids = λ id.
        Once-map (request_is id) _ db.requests
          (λ row. elim (Bool-cases (request_is i row)) [
            | inl e ↦ rw (e, keep_id row) refl
            | inr e ↦ rw e refl
          ])
          (keys.ids id);
    requests = λ r u.
        Once-map (request_of r u) _ db.requests
          (λ row. elim (Bool-cases (request_is i row)) [
            | inl e ↦ rw (e, keep_room row, keep_user row) refl
            | inr e ↦ rw e refl
          ])
          (keys.requests r u);
    fresh =
        All-map (λ row. row.id < db.next_request_id) (λ row. row.id < db.next_request_id) _
          db.requests
          (λ row h. elim (Bool-cases (request_is i row)) [
            | inl e ↦ rw (e, keep_id row) h
            | inr e ↦ rw e h
          ])
          keys.fresh;
  }

-- No row has the next id.
unused :
    (next : ℕ) (rows : List RoomAccessRequest)
    → All (λ row. row.id < next) rows
    → any (request_is next) rows ≡ false
unused next [] h = refl
unused next (row ∷ rows) (below, h) = ground (arith, unused next rows h)

pub place_request-HasKeys :
    (db : Database) (r : ℕ) (u : String) (note : Option String)
    → HasKeys db
    → HasKeys (place_request db r u note)
unfolding place_request
place_request-HasKeys db r u text keys = elim (Option-cases (find (request_of r u) db.requests)) [
  | inl absent ↦
      rw (absent, place_request)
        record {
          rooms = keys.rooms;
          slugs = keys.slugs;
          members = keys.members;
          ids = λ id.
              Once-append_one (request_is id) db.requests _
                (λ own.
                  rw (← (nat_key.matches_iff db.next_request_id id).0 own)
                    (unused db.next_request_id db.requests keys.fresh))
                (keys.ids id);
          requests = λ r' u'.
              Once-append_one (request_of r' u') db.requests _
                (λ own.
                  let (er, eu) = same_pair r r' u u' own in
                  rw (← er, ← eu) (any-of_find (request_of r u) db.requests absent))
                (keys.requests r' u');
          fresh =
              All-append (λ row. row.id < db.next_request_id + 1) db.requests _
                (All-impl (λ row. row.id < db.next_request_id)
                  (λ row. row.id < db.next_request_id + 1) db.requests (λ row h. omega arith)
                  keys.fresh)
                (omega arith, tt);
        }
  | inr (existing, there) ↦
      rw (there, place_request)
        (update-HasKeys db existing.id _ (λ row. refl) (λ row. refl) (λ row. refl) keys)
]

pub commit_decision-HasKeys :
    (now : ℕ) (db : Database) (decision : Decision) (request : RoomAccessRequest)
    → HasKeys db
    → HasKeys (commit_decision now db decision request)
unfolding commit_decision
commit_decision-HasKeys now db decision request keys =
    let updated = update-HasKeys db request.id _ (λ row. refl) (λ row. refl) (λ row. refl) keys in
    record {
      rooms = keys.rooms;
      slugs = keys.slugs;
      members = λ r u.
          elim (decision.action)
            as (λ a.
              Once (member_is r u)
                (members_after a db.members request.room_id request.requester_id decision.role)) [
                  | approve ↦
                      Once-upsert db.members request.room_id r request.requester_id u decision.role
                        (keys.members r u)
                  | reject ↦ keys.members r u
                ];
      ids = updated.ids;
      requests = updated.requests;
      fresh = updated.fresh;
    }

pub remove-HasKeys :
    (db : Database) (r : ℕ) (u : String)
    → HasKeys db
    → HasKeys (record db {
      members = delete_many (member_is r u) db.members;
      requests = delete_many (request_of r u) db.requests;
    })
remove-HasKeys db r u keys = record {
  rooms = keys.rooms;
  slugs = keys.slugs;
  members = λ r' u'. Once-delete (member_is r' u') (member_is r u) db.members (keys.members r' u');
  ids = λ id. Once-delete (request_is id) (request_of r u) db.requests (keys.ids id);
  requests =
      λ r' u'. Once-delete (request_of r' u') (request_of r u) db.requests (keys.requests r' u');
  fresh =
      All-select (λ row. row.id < db.next_request_id) (λ row. row.id < db.next_request_id) _
        db.requests (λ row _ h. h) keys.fresh;
}

pub set_role-HasKeys :
    (db : Database) (r : ℕ) (u : String) (role : RoomMemberRole)
    → HasKeys db
    → HasKeys (record db {
      members = update_many (member_is r u) (λ member. record member { role = role }) db.members;
    })
set_role-HasKeys db r u role keys = record {
  rooms = keys.rooms;
  slugs = keys.slugs;
  members = λ r' u'.
      Once-map (member_is r' u') _ db.members (member_keeps_pair r r' u u' (λ m. role))
        (keys.members r' u');
  ids = keys.ids;
  requests = keys.requests;
  fresh = keys.fresh;
}

-- ===== src/Rooms/Asking.antt =====
-- What `requestRoomAccess` of apps/http-backend/src/controllers/room.controller.ts keeps.
use canvassync.Prelude.{
  ℕ, ◌<◌, String, Bool, false, not, ◌&&◌, Option, some, List, [], ◌∷◌, ◌≡◌, refl, ◌∙◌, inl, inr,
  any, find, All, All-append, All-map, Bool-cases, Option-cases, ◌==◌, string_key, nat_key, arith,
  matches_refl,
}
use canvassync.Rooms.Reply.{
  parsed, require_user_id, Returns, Returns->>=, Returns->>, done_lem, parsed-eq,
}
use canvassync.Rooms.Database.{
  Database, Room, RoomAccessRequest, room_is, member_is, request_is, request_of,
}
use canvassync.Rooms.Table.{update_many, Once, any-of_found}
use canvassync.Rooms.Access.{is_owner}
use canvassync.Rooms.Requests.{
  AccessRequestCreate, AccessReply, request_room_access, place_request, has_pending, named_room,
  answer_request,
}
use canvassync.Rooms.Invariant.{IsSound}
use canvassync.Rooms.Keys.{place_request-HasKeys}
use canvassync.Rooms.Grants.{place_request-IsGranted}

none_such :
    (id : ℕ) (u : String) (rooms : List Room)
    → any (room_is id) rooms ≡ false
    → any (λ other. room_is id other && other.admin_id == u) rooms ≡ false
none_such id u [] h = refl
none_such id u (x ∷ rooms) h = ground (arith, none_such id u rooms)

-- The room that a query finds is the one with its id.
pub owner_of_found :
    (test : Room → Bool) (rooms : List Room) (room : Room) (u : String)
    → ((id : ℕ) → Once (room_is id) rooms)
    → find test rooms ≡ some room
    → any (λ other. room_is room.id other && other.admin_id == u) rooms ≡ (room.admin_id == u)
owner_of_found test [] room u once h = cc
owner_of_found test (x ∷ rooms) room u once h = elim (Bool-cases (test x)) [
  | inl here ↦ ground (arith, none_such x.id u rooms, (once x.id).0, matches_refl x.id)
  | inr later ↦ ground (
    arith,
    owner_of_found test rooms room u (λ id. (once id).1),
    (once room.id).0,
    any-of_found test (room_is room.id) rooms {x = room},
    matches_refl room.id,
  )
]

id_below :
    (next : ℕ) (test : Room → Bool) (rooms : List Room) (room : Room)
    → All (λ other. other.id < next) rooms
    → find test rooms ≡ some room
    → room.id < next
id_below next test [] room all h = cc
id_below next test (x ∷ rooms) room (here, all) h = ground (arith, id_below next test rooms room)

place_rooms :
    (db : Database) (r : ℕ) (u : String) (note : Option String)
    → (place_request db r u note).rooms ≡ db.rooms
unfolding place_request
place_rooms db r u text = elim (Option-cases (find (request_of r u) db.requests)) [
  | inl e ↦ rw (e, place_request) refl
  | inr (existing, e) ↦ rw (e, place_request) refl
]

place_next :
    (db : Database) (r : ℕ) (u : String) (note : Option String)
    → (place_request db r u note).next_room_id ≡ db.next_room_id
unfolding place_request
place_next db r u text = elim (Option-cases (find (request_of r u) db.requests)) [
  | inl e ↦ rw (e, place_request) refl
  | inr (existing, e) ↦ rw (e, place_request) refl
]

pub asked-update :
    (db : Database) (i : ℕ) (change : RoomAccessRequest → RoomAccessRequest)
    → ((q : RoomAccessRequest) → (change q).room_id ≡ q.room_id)
    → All (λ q. q.room_id < db.next_room_id) db.requests
    → All (λ q. q.room_id < db.next_room_id) (update_many (request_is i) change db.requests)
asked-update db i change keep asked =
    All-map (λ q. q.room_id < db.next_room_id) (λ q. q.room_id < db.next_room_id) _ db.requests
      (λ q h. elim (Bool-cases (request_is i q)) [ inl e ↦ rw (e, keep q) h | inr e ↦ rw e h ])
      asked

place_request-asked :
    (db : Database) (r : ℕ) (u : String) (note : Option String)
    → r < db.next_room_id
    → All (λ q. q.room_id < db.next_room_id) db.requests
    → All (λ q. q.room_id < db.next_room_id) (place_request db r u note).requests
unfolding place_request
place_request-asked db r u text below asked =
    elim (Option-cases (find (request_of r u) db.requests)) [
      | inl absent ↦
          rw (absent, place_request)
            (All-append (λ q. q.room_id < db.next_room_id) db.requests _ asked (below, tt))
      | inr (existing, there) ↦
          rw (there, place_request) (asked-update db existing.id _ (λ q. refl) asked)
    ]

answer_request-IsSound :
    (db : Database) (r : ℕ) (u : String) (note : Option String)
    → IsSound db
    → r < db.next_room_id
    → is_owner db r u ≡ false
    → IsSound (answer_request db r u note).0
unfolding answer_request
answer_request-IsSound db r u text sound below stranger =
    elim (Bool-cases (any (member_is r u) db.members)) [
      | inl inside ↦ rw (inside, answer_request) sound
      | inr outside ↦
          rw (outside, answer_request)
            (elim (Bool-cases (has_pending db r u)) [
              | inl waits ↦ rw (waits, answer_request) sound
              | inr idle ↦
                  rw (idle, answer_request)
                    record {
                      keys = place_request-HasKeys db r u text sound.keys;
                      rooms = record {
                        fresh =
                            rw (place_rooms db r u text, place_next db r u text) sound.rooms.fresh;
                        asked =
                            rw (place_next db r u text)
                              (place_request-asked db r u text below sound.rooms.asked);
                      };
                      granted =
                          place_request-IsGranted db r u text sound.keys sound.granted stranger
                            outside;
                    }
            ])
    ]

pub request-IsSound :
    (db : Database) (user : Option String) (body : Option AccessRequestCreate)
    → IsSound db
    → Returns (λ (r : Database × AccessReply). IsSound r.0) (request_room_access db user body)
unfolding request_room_access is_owner
request-IsSound db user body sound = Returns->>= (parsed body 400) λ body' e.
    Returns->>= (require_user_id user) λ requester_id e'.
      Returns->>= (parsed (find (named_room db body') db.rooms) 404) λ room e''.
        let found = parsed-eq (find (named_room db body') db.rooms) 404 e'' in
        Returns->> (not (room.admin_id == requester_id)) 400 λ stranger. done_lem (
          answer_request-IsSound db room.id requester_id body'.note sound
            (id_below db.next_room_id (named_room db body') db.rooms room sound.rooms.fresh found)
            (owner_of_found (named_room db body') db.rooms room requester_id sound.keys.rooms found
              ∙ ground arith))

-- ===== src/Rooms/Founding.antt =====
-- Creating and renaming a room: what stays true of the tables of
-- apps/http-backend/src/controllers/room.controller.ts, and what a new room's slug finds.
use canvassync.Prelude.{
  ℕ, ◌+◌, ◌<◌, String, true, false, ◌&&◌, ◌||◌, none, List, [], ◌∷◌, ◌≡◌, refl, sym, ◌∙◌, inl, inr,
  any, find, All, All-append, All-impl, All-map, Bool-cases, ◌==◌, string_key, nat_key, arith,
}
use canvassync.Rooms.Table.{any-append_one, any-map, find-of_any, Once-map, Once-append_one}
use canvassync.Rooms.Database.{Database, Room, RoomAccessRequest, room_is, request_of, slug_of}
use canvassync.Rooms.Slugs.{same_slug, is_taken, all-Owned, renamed-Once}
use canvassync.Rooms.Access.{is_owner}
use canvassync.Rooms.Naming.{with_room, with_slug}
use canvassync.Rooms.Invariant.{IsSound}

unused_room :
    (next : ℕ) (rooms : List Room)
    → All (λ room. room.id < next) rooms
    → any (room_is next) rooms ≡ false
unused_room next [] h = refl
unused_room next (room ∷ rooms) (below, h) = ground (arith, unused_room next rooms h)

-- Nobody has asked for a room that is not there yet.
unasked :
    (next : ℕ) (u : String) (requests : List RoomAccessRequest)
    → All (λ request. request.room_id < next) requests
    → any (request_of next u) requests ≡ false
unasked next u [] h = refl
unasked next u (request ∷ requests) (below, h) = ground (arith, unasked next u requests h)

abbrev pub founded : Database → (slug user_id : String) → Database
founded db slug user_id =
    (with_room db (record { id = db.next_room_id; slug = slug; admin_id = user_id })).0

module _ (db : Database) (slug : String) (user_id : String) (sound : IsSound db) where
  founded_owner :
      (r : ℕ) (u : String)
      → is_owner (founded db slug user_id) r u
        ≡ (is_owner db r u || (db.next_room_id == r && user_id == u))
  unfolding is_owner
  founded_owner r u = any-append_one (λ room. room_is r room && room.admin_id == u) db.rooms _

  apart-founded :
      (r : ℕ) (u : String)
      → is_owner (founded db slug user_id) r u ≡ true
      → find (request_of r u) db.requests ≡ none
  apart-founded r u owner = elim (Bool-cases (is_owner db r u)) [
    | inl before ↦ sound.granted.apart r u before
    | inr newly ↦
        let same : db.next_room_id ≡ r = ground (arith, founded_owner r u) in
        rw (← same) (
          find-of_any (request_of db.next_room_id u) db.requests
            (unasked db.next_room_id u db.requests sound.rooms.asked))
  ]

  pub founded-IsSound :
      any (slug_of user_id slug) db.rooms ≡ false → IsSound (founded db slug user_id)
  founded-IsSound free = record {
    keys = record {
      rooms = λ id.
          Once-append_one (room_is id) db.rooms _
            (λ own.
              rw (← (nat_key.matches_iff db.next_room_id id).0 own)
                (unused_room db.next_room_id db.rooms sound.rooms.fresh))
            (sound.keys.rooms id);
      slugs = λ a s.
          Once-append_one (slug_of a s) db.rooms _
            (λ own. let (ea, es) = same_slug user_id a slug s own in rw (← ea, ← es) free)
            (sound.keys.slugs a s);
      members = sound.keys.members;
      ids = sound.keys.ids;
      requests = sound.keys.requests;
      fresh = sound.keys.fresh;
    };
    rooms = record {
      fresh =
          All-append (λ room. room.id < db.next_room_id + 1) db.rooms _
            (All-impl (λ room. room.id < db.next_room_id) (λ room. room.id < db.next_room_id + 1)
              db.rooms (λ room h. omega arith) sound.rooms.fresh)
            (omega arith, tt);
      asked =
          All-impl (λ request. request.room_id < db.next_room_id)
            (λ request. request.room_id < db.next_room_id + 1) db.requests
            (λ request h. omega arith) sound.rooms.asked;
    };
    granted = record { matched = sound.granted.matched; apart = apart-founded };
  }

module _ (db : Database) (room_id : ℕ) (slug : String) (sound : IsSound db) where
  renamed_owner : (r : ℕ) (u : String) → is_owner (with_slug db room_id slug) r u ≡ is_owner db r u
  unfolding is_owner
  renamed_owner r u =
      any-map (λ room. room_is r room && room.admin_id == u) _ db.rooms
        (λ room. elim (Bool-cases (room_is room_id room)) [ inl e ↦ rw e refl | inr e ↦ rw e refl ])

  pub renamed-IsSound :
      (user_id : String)
      → is_owner db room_id user_id ≡ true
      → any (is_taken room_id user_id slug) db.rooms ≡ false
      → IsSound (with_slug db room_id slug)
  unfolding is_owner
  renamed-IsSound user_id owner free = record {
    keys = record {
      rooms = λ id.
          Once-map (room_is id) _ db.rooms
            (λ room. elim (Bool-cases (room_is room_id room)) [
              | inl e ↦ rw e refl
              | inr e ↦ rw e refl
            ])
            (sound.keys.rooms id);
      slugs = λ a s.
          renamed-Once room_id user_id slug a s db.rooms (sound.keys.rooms room_id)
            (all-Owned room_id user_id slug db.rooms (sound.keys.rooms room_id) owner) free
            (sound.keys.slugs a s);
      members = sound.keys.members;
      ids = sound.keys.ids;
      requests = sound.keys.requests;
      fresh = sound.keys.fresh;
    };
    rooms = record {
      fresh =
          All-map (λ room. room.id < db.next_room_id) (λ room. room.id < db.next_room_id) _ db.rooms
            (λ room h. elim (Bool-cases (room_is room_id room)) [ inl e ↦ rw e h | inr e ↦ rw e h ])
            sound.rooms.fresh;
      asked = sound.rooms.asked;
    };
    granted = record {
      matched = sound.granted.matched;
      apart = λ r u owner. sound.granted.apart r u (sym (renamed_owner r u) ∙ owner);
    };
  }

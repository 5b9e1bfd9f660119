-- ===== src/Rooms/Slugs.antt =====
-- One slug for one room of an owner, under createRoom and renameRoomSlug of
-- apps/http-backend/src/controllers/room.controller.ts.
use canvassync.Prelude.{
  ℕ, String, Bool, true, false, not, ◌&&◌, ◌||◌, List, [], ◌∷◌, ◌≡◌, refl, inl, inr, any, map, All,
  Bool-cases, ◌==◌, string_key, nat_key, if◌then◌else◌, arith,
}
use canvassync.Rooms.Table.{Once}
use canvassync.Rooms.Database.{Room, room_is, slug_of}

pub same_slug : (a a' s s' : String) → (a == a' && s == s') ≡ true → (a ≡ a') × (s ≡ s')
same_slug a a' s s' h =
    ((string_key.matches_iff a a').0 (ground arith), (string_key.matches_iff s s').0 (ground arith))

module _ (id : ℕ) (u slug : String) where
  -- A room with the id is the user's.
  abbrev pub Owned : Room → Type 0
  Owned room = (not (room_is id room) || room.admin_id == u) ≡ true

  abbrev pub renamed : Room → Room
  renamed room = if room_is id room then record room { slug = slug } else room

  abbrev pub is_taken : Room → Bool
  is_taken room = slug_of u slug room && not (room_is id room)

  none_here : (rooms : List Room) → any (room_is id) rooms ≡ false → All Owned rooms
  none_here [] h = tt
  none_here (x ∷ rooms) h = (ground arith, none_here rooms (ground arith))

  not_owner :
      (rooms : List Room)
      → any (room_is id) rooms ≡ false
      → any (λ room. room_is id room && room.admin_id == u) rooms ≡ false
  not_owner [] h = refl
  not_owner (x ∷ rooms) h = ground (arith, not_owner rooms)

  pub all-Owned :
      (rooms : List Room)
      → Once (room_is id) rooms
      → any (λ room. room_is id room && room.admin_id == u) rooms ≡ true
      → All Owned rooms
  all-Owned [] once owner = tt
  all-Owned (x ∷ rooms) (alone, once) owner = elim (Bool-cases (room_is id x)) [
    | inl own ↦ (ground (arith, not_owner rooms (alone own)), none_here rooms (alone own))
    | inr other ↦ (ground arith, all-Owned rooms once (ground arith))
  ]

  free_after :
      (rooms : List Room)
      → any (room_is id) rooms ≡ false
      → any is_taken rooms ≡ false
      → any (slug_of u slug) (map renamed rooms) ≡ false
  free_after [] absent free = refl
  free_after (x ∷ rooms) absent free = ground (arith, free_after rooms)

  other_slug :
      (a s : String) (rooms : List Room)
      → (u == a && slug == s) ≡ false
      → All Owned rooms
      → any (slug_of a s) rooms ≡ false
      → any (slug_of a s) (map renamed rooms) ≡ false
  other_slug a s [] apart owned none_has = refl
  other_slug a s (x ∷ rooms) apart (own, owned) none_has =
      ground (arith, other_slug a s rooms, string_key.matches_iff x.admin_id u)

  renamed_first :
      (a s : String) (x : Room) (rooms : List Room)
      → (room_is id x ≡ true → any (room_is id) rooms ≡ false)
      → Owned x
      → All Owned rooms
      → any is_taken (x ∷ rooms) ≡ false
      → (slug_of a s x ≡ true → any (slug_of a s) rooms ≡ false)
      → slug_of a s (renamed x) ≡ true
      → any (slug_of a s) (map renamed rooms) ≡ false
  renamed_first a s x rooms alone_id own owned free alone has = elim (Bool-cases (room_is id x)) [
    | inl here ↦
        let (admin, same) = same_slug x.admin_id a slug s (ground (arith, has, here)) in
        let user : x.admin_id ≡ u =
          ground (arith, own, here, string_key.matches_iff x.admin_id u) in
        rw (← same, ← admin, user) (free_after rooms (alone_id here) (ground arith))
    | inr other ↦
        let kept : slug_of a s x ≡ true = ground (arith, has, other) in
        elim (Bool-cases (u == a && slug == s)) [
          | inl same ↦
              let (ea, es) = same_slug u a slug s same in
              let taken : slug_of u slug x ≡ true = rw (ea, es) kept in ground (arith, taken, other)
          | inr apart ↦ other_slug a s rooms apart owned (alone kept)
        ]
  ]

  pub renamed-Once :
      (a s : String) (rooms : List Room)
      → Once (room_is id) rooms
      → All Owned rooms
      → any is_taken rooms ≡ false
      → Once (slug_of a s) rooms
      → Once (slug_of a s) (map renamed rooms)
  renamed-Once a s [] ids owned free once = tt
  renamed-Once a s (x ∷ rooms) (alone_id, ids) (own, owned) free (alone, once) = (
    renamed_first a s x rooms alone_id own owned free alone,
    renamed-Once a s rooms ids owned (ground arith) once,
  )

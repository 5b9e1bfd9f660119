-- ===== src/Ws/Connections/Counted.antt =====
-- connectionState.ts: joining and leaving, and the count of a user's connections.
use canvassync.Prelude.{
  ℕ, ◌+◌, ◌-◌, String, ◌≡◌, true, false, none, some, arith, leb, nat_beq, nat_beq_iff, nat_key,
  string_key, Bool-cases, inl, inr, Option-cases, ap,
}
use canvassync.JsMap
use canvassync.JsMap.{JsMap, IsMap}
use canvassync.JsMap.Nested.{
  delete_in, IsNested, get_in-set_in, get_in-delete_in, set_in-IsNested, delete_in-IsNested,
}
use canvassync.Ws.Connections.{
  Hub, truthy, participant_count, enter_room, join_active_room, count_down, leave_active_room,
}
use canvassync.JsMap.Laws.{has-eq-get}
use canvassync.Ws.Connections.Counting.{
  connections, in_room, IsCounted, left, connections-enter_room, connections-left,
}

module _ (room ws : ℕ) (h : Hub) (c : IsCounted h) where
  entered-IsNested : IsNested (enter_room room ws h).active_rooms
  unfolding enter_room
  entered-IsNested = set_in-IsNested h.active_rooms room ws tt c.rooms_nested

  -- Where the participant counts are right, a socket that joins a room which it is not in keeps
  -- them right for every user in every room.
  pub join_active_room-IsCounted :
      in_room room ws h ≡ false → IsCounted (join_active_room room ws h).1
  unfolding join_active_room
  join_active_room-IsCounted fresh = elim (Option-cases (truthy (h.sockets ws).user_id)) [
    | inl anonymous ↦
        rw (anonymous, join_active_room)
          (record {
            rooms_nested = entered-IsNested;
            participants_nested = c.participants_nested;
            counted = λ r u. ground (
              arith,
              anonymous,
              c.counted r u,
              connections-enter_room room ws h c.rooms_nested r u fresh,
            );
          })
    | inr (user, known) ↦
        rw (known, join_active_room)
          (record {
            rooms_nested = entered-IsNested;
            participants_nested =
                set_in-IsNested h.room_participants room user (participant_count room user h + 1)
                  c.participants_nested;
            counted = λ r u. ground (
              arith,
              known,
              c.counted r u,
              c.counted room user,
              nat_beq_iff room r,
              string_key.matches_iff user u,
              get_in-set_in h.room_participants room r user u (participant_count room user h + 1),
              connections-enter_room room ws h c.rooms_nested r u fresh,
            );
          })
  ]

  -- Where the participant counts are right, joinActiveRoom tells of a known user's socket whether
  -- the user had no connection to the room.
  join_active_room_first :
      (user : String)
      → truthy (h.sockets ws).user_id ≡ some user
      → (join_active_room room ws h).0 ≡ nat_beq (connections room user h) 0
  unfolding join_active_room
  join_active_room_first user known =
      rw (known, join_active_room) (ap (λ (n : ℕ). nat_beq n 0) (c.counted room user))

  -- Where the participant counts are right, when a known user's socket joins a room that it is not
  -- in, they stay right for every user in every room, and joinActiveRoom tells whether the user
  -- had no connection to the room.
  pub join_active_room_counts :
      (user : String)
      → truthy (h.sockets ws).user_id ≡ some user
      → in_room room ws h ≡ false
      → IsCounted (join_active_room room ws h).1
        × ((join_active_room room ws h).0 ≡ nat_beq (connections room user h) 0)
  join_active_room_counts user known fresh =
      (join_active_room-IsCounted fresh, join_active_room_first user known)

  left-IsNested : IsNested (delete_in h.active_rooms room ws)
  left-IsNested = delete_in-IsNested h.active_rooms room ws c.rooms_nested

  room_is_there : in_room room ws h ≡ true → JsMap.has h.active_rooms room ≡ true
  unfolding JsMap.has
  room_is_there there = ground (arith, has-eq-get h.active_rooms room)

  leave_anonymous :
      in_room room ws h ≡ true
      → truthy (h.sockets ws).user_id ≡ none
      → leave_active_room room ws h ≡ (false, left room ws h)
  unfolding leave_active_room
  leave_anonymous there anonymous = rw (room_is_there there) (ground (arith, anonymous))

  module _ (user : String) (known : truthy (h.sockets ws).user_id ≡ some user) where
    connected :
        in_room room ws h ≡ true
        → connections room user h ≡ connections room user (left room ws h) + 1
    connected there = ground (
      arith,
      known,
      string_key.matches_iff user user,
      nat_beq_iff room room,
      connections-left room ws h c.rooms_nested room user there,
    )

    participants_there : in_room room ws h ≡ true → JsMap.has h.room_participants room ≡ true
    unfolding JsMap.get
    participants_there there =
        ground (arith, connected there, c.counted room user, has-eq-get h.room_participants room)

    leave_known :
        in_room room ws h ≡ true
        → leave_active_room room ws h ≡ count_down room user (left room ws h)
    unfolding leave_active_room
    leave_known there = rw (room_is_there there) (ground (arith, known, participants_there there))

    count_down-counted :
        in_room room ws h ≡ true
        → (r : ℕ) (u : String)
        → participant_count r u (count_down room user (left room ws h)).1
          ≡ connections r u (count_down room user (left room ws h)).1
    unfolding count_down
    count_down-counted there r u = ground (
      arith,
      known,
      c.counted r u,
      c.counted room user,
      nat_beq_iff room r,
      string_key.matches_iff user u,
      connected there,
      get_in-set_in h.room_participants room r user u (participant_count room user h - 1),
      get_in-delete_in h.room_participants room r user u c.participants_nested,
      connections-left room ws h c.rooms_nested r u there,
    )

    count_down-IsCounted :
        in_room room ws h ≡ true → IsCounted (count_down room user (left room ws h)).1
    count_down-IsCounted there = record {
      rooms_nested =
          unfold count_down in
          elim (Bool-cases (leb (participant_count room user h) 1)) [
            | inl last ↦ rw last left-IsNested
            | inr more ↦ rw more left-IsNested
          ];
      participants_nested =
          unfold count_down in
          elim (Bool-cases (leb (participant_count room user h) 1)) [
            | inl last ↦
                rw last (delete_in-IsNested h.room_participants room user c.participants_nested)
            | inr more ↦ rw more (
                set_in-IsNested h.room_participants room user (participant_count room user h - 1)
                  c.participants_nested)
          ];
      counted = count_down-counted there;
    }

  leave_active_room-IsCounted : in_room room ws h ≡ true → IsCounted (leave_active_room room ws h).1
  leave_active_room-IsCounted there = elim (Option-cases (truthy (h.sockets ws).user_id)) [
    | inl anonymous ↦ rw (leave_anonymous there anonymous) (record {
      rooms_nested = left-IsNested;
      participants_nested = c.participants_nested;
      counted = λ r u.
          ground
            (arith, anonymous, c.counted r u, connections-left room ws h c.rooms_nested r u there);
    })
    | inr (user, known) ↦ rw (leave_known user known there) (count_down-IsCounted user known there)
  ]

  leave_active_room_last :
      (user : String)
      → truthy (h.sockets ws).user_id ≡ some user
      → in_room room ws h ≡ true
      → (leave_active_room room ws h).0
        ≡ nat_beq (connections room user (leave_active_room room ws h).1) 0
  leave_active_room_last user known there =
      rw (leave_known user known there)
        (unfold count_down in ground (arith, connected user known there, c.counted room user))

  -- Where the participant counts are right, when a known user's socket leaves the room it is in,
  -- they stay right for every user in every room, and leaveActiveRoom tells whether no connection
  -- of the user to the room is left.
  pub leave_active_room_counts :
      (user : String)
      → truthy (h.sockets ws).user_id ≡ some user
      → in_room room ws h ≡ true
      → IsCounted (leave_active_room room ws h).1
        × ((leave_active_room room ws h).0
            ≡ nat_beq (connections room user (leave_active_room room ws h).1) 0)
  leave_active_room_counts user known there =
      (leave_active_room-IsCounted there, leave_active_room_last user known there)

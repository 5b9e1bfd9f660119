-- ===== src/Ws/Connections/Counting.antt =====
-- connectionState.ts: the open connections of a user to a room, and when the participant counts of a
-- hub are right.
use canvassync.Prelude.{
  ℕ, suc, ◌+◌, String, ◌≡◌, refl, Bool, true, false, Option, none, some, List, [], ◌∷◌, arith,
  nat_beq, nat_beq_iff, if◌then◌else◌, ◌==◌, nat_key, string_key, Bool-cases, inl, inr, ap, ◌∙◌,
}
use canvassync.JsMap
use canvassync.JsMap.{JsMap, IsMap}
use canvassync.JsMap.Nested.{delete_in, inner, IsNested, inner-set_in, inner-delete_in}
use canvassync.Ws.Connections.{
  Socket, Hub, truthy, put_socket, participant_count, enter_room, room_sockets,
}

-- How many of the keys pass a test.
abbrev pub tally : (ℕ → Bool) → List ℕ → ℕ
tally p [] = 0
tally p (w ∷ ws) = let rest = tally p ws in if p w then suc rest else rest

tally_ext : (p q : ℕ → Bool) (ws : List ℕ) → ((w : ℕ) → p w ≡ q w) → tally p ws ≡ tally q ws
tally_ext p q [] h = refl
tally_ext p q (w ∷ ws) h = ground (arith, h w, tally_ext p q ws h)

tally-set :
    (p : ℕ → Bool) (i : JsMap ℕ (Unit {0})) (w : ℕ)
    → JsMap.has i w ≡ false
    → tally p (JsMap.keys (JsMap.set i w tt)) ≡ tally p (JsMap.keys i) + (if p w then 1 else 0)
unfolding JsMap.set JsMap.has
tally-set p [] w h = ground arith
tally-set p ((v, u) ∷ i) w h = ground (arith, tally-set p i w)

tally-delete :
    (p : ℕ → Bool) (i : JsMap ℕ (Unit {0})) (w : ℕ)
    → JsMap.has i w ≡ true
    → tally p (JsMap.keys i) ≡ tally p (JsMap.keys (JsMap.delete i w)) + (if p w then 1 else 0)
unfolding JsMap.delete JsMap.has
tally-delete p [] w h = cc
tally-delete p ((v, u) ∷ i) w h = ground (arith, tally-delete p i w, nat_beq_iff v w)

abbrev pub is_user : String → Option String → Bool
is_user user none = false
is_user user (some u) = u == user

-- Whether a socket is the user's.
abbrev pub owns : Hub → String → ℕ → Bool
owns h user w = is_user user (truthy (h.sockets w).user_id)

-- The sockets of the user in the room.
abbrev pub connections : ℕ → String → Hub → ℕ
connections room user h = tally (owns h user) (room_sockets room h)

abbrev pub in_room : ℕ → ℕ → Hub → Bool
in_room room w h = JsMap.has (inner (JsMap.get h.active_rooms room)) w

pub record IsCounted (h : Hub) : Type 0 where
  pub rooms_nested : IsNested h.active_rooms
  pub participants_nested : IsNested h.room_participants
  pub counted : (room : ℕ) (user : String) → participant_count room user h ≡ connections room user h

owns-put_socket :
    (h : Hub) (ws : ℕ) (s : Socket) (user : String) (w : ℕ)
    → s.user_id ≡ (h.sockets ws).user_id
    → is_user user (truthy (put_socket h.sockets ws s w).user_id) ≡ owns h user w
owns-put_socket h ws s user w e = elim (Bool-cases (nat_beq w ws)) [
  | inl same ↦ rw same (rw e (rw ((nat_beq_iff w ws).0 same)))
  | inr other ↦ rw other
]

-- The hub without the socket among the room's.
abbrev pub left : ℕ → ℕ → Hub → Hub
left room ws h = record h { active_rooms = delete_in h.active_rooms room ws }

module _ (room ws : ℕ) (h : Hub) (v : IsNested h.active_rooms) where
  pub connections-enter_room :
      (r : ℕ) (u : String)
      → in_room room ws h ≡ false
      → connections r u (enter_room room ws h)
        ≡ connections r u h + (if nat_beq room r then (if owns h u ws then 1 else 0) else 0)
  unfolding enter_room
  connections-enter_room r u fresh =
      ap (λ (i : JsMap ℕ (Unit {0})). tally (owns (enter_room room ws h) u) (JsMap.keys i))
        (inner-set_in h.active_rooms room r ws tt)
      ∙ tally_ext _ (owns h u) _ (λ w. owns-put_socket h ws _ u w refl)
      ∙ entered
    where
      entered :
          tally (owns h u) (
            JsMap.keys (
              if nat_beq room r
              then JsMap.set (inner (JsMap.get h.active_rooms r)) ws tt
              else inner (JsMap.get h.active_rooms r)))
          ≡ connections r u h + (if nat_beq room r then (if owns h u ws then 1 else 0) else 0)
      entered =
          ground (
            arith,
            nat_beq_iff room r,
            tally-set (owns h u) (inner (JsMap.get h.active_rooms r)) ws,
          )

  pub connections-left :
      (r : ℕ) (u : String)
      → in_room room ws h ≡ true
      → connections r u h
        ≡ connections r u (left room ws h)
          + (if nat_beq room r then (if owns h u ws then 1 else 0) else 0)
  connections-left r u there = ground (
    arith,
    nat_beq_iff room r,
    tally-delete (owns h u) (inner (JsMap.get h.active_rooms r)) ws,
    inner-delete_in h.active_rooms room r ws v,
  )

-- ===== src/Ws/Connections.antt =====
-- apps/ws-backend/src/ws/connectionState.ts: who is connected, in which room, with which presence.
-- A socket is known by its identity, a number; `sockets` is the heap of the socket objects. What
-- goes out over the sockets is appended to `sent`, in order.
pub mod Counting
pub mod Counted
use canvassync.Prelude.{
  ℕ, zero, suc, ◌+◌, ◌-◌, String, Bool, true, false, not, ◌&&◌, ◌||◌, Option, none, some, List, [],
  ◌∷◌, ◌++◌, map, select, any, ltb, leb, nat_beq, if◌then◌else◌, ◌==◌, nat_key, string_key,
}
use canvassync.JsMap
use canvassync.JsMap.{JsMap}
use canvassync.JsMap.Nested.{set_in, delete_in, get_in, inner}
use canvassync.Ws.Protocol.{
  RoomRole, RoomPresence, RoomPresenceState, ServerMessage, room_presence_state,
}

pub record Socket : Type 0 where
  pub user_id : Option String
  pub user_name : Option String
  pub current_room_id : Option ℕ
  pub role : Option RoomRole
  pub role_checked_at_ms : Option ℕ
  pub is_open : Bool

pub record RoomTimer : Type 0 where
  pub ends_at : ℕ
  pub label : Option String
  pub sender_id : String
  pub sender_name : String

pub record Hub : Type 0 where
  pub sockets : ℕ → Socket
  pub user_sockets : JsMap String (JsMap ℕ (Unit {0}))
  pub active_rooms : JsMap ℕ (JsMap ℕ (Unit {0}))
  pub room_participants : JsMap ℕ (JsMap String ℕ)
  pub room_presences : JsMap ℕ (JsMap String RoomPresence)
  pub room_timers : JsMap ℕ RoomTimer
  pub room_voice : JsMap ℕ (JsMap String String)
  pub pending_presence_broadcast : JsMap ℕ (Unit {0})
  pub sent : List (ℕ × ServerMessage)

-- `ws.userId` where the code asks whether it is truthy: the empty text is not.
abbrev pub truthy : Option String → Option String
truthy none = none
truthy (some u) = if u == "" then none else some u

abbrev pub put_socket : (ℕ → Socket) → ℕ → Socket → ℕ → Socket
put_socket f w s v = if nat_beq v w then s else f v

unfoldable pub set_room_timer : (now : ℕ) → ℕ → Option RoomTimer → Hub → Hub
set_room_timer now room none h = record h { room_timers = JsMap.delete h.room_timers room }
set_room_timer now room (some t) h =
    if ltb now t.ends_at
    then record h { room_timers = JsMap.set h.room_timers room t }
    else record h { room_timers = JsMap.delete h.room_timers room }

unfoldable pub get_room_timer : (now : ℕ) → ℕ → Hub → Option RoomTimer × Hub
get_room_timer now room h = elim (JsMap.get h.room_timers room) [
  | none ↦ (none, h)
  | some t ↦
      if leb t.ends_at now
      then (none, record h { room_timers = JsMap.delete h.room_timers room })
      else (some t, h)
]

unfoldable pub set_voice_participant : ℕ → String → String → Bool → Hub → Hub
set_voice_participant room user name on h =
    if on
    then record h { room_voice = set_in h.room_voice room user name }
    else record h { room_voice = delete_in h.room_voice room user }

unfoldable pub get_voice_participants : ℕ → Hub → List (String × String)
get_voice_participants room h = inner (JsMap.get h.room_voice room)

unfoldable pub register_user : String → ℕ → Hub → Hub
register_user user ws h = record h {
  sockets = put_socket h.sockets ws (record (h.sockets ws) { user_id = some user });
  user_sockets = set_in h.user_sockets user ws tt;
}

unfoldable pub remove_user_socket : ℕ → Hub → Hub
remove_user_socket ws h = elim (truthy (h.sockets ws).user_id) [
  | none ↦ h
  | some user ↦ record h { user_sockets = delete_in h.user_sockets user ws }
]

-- `participants.get(userId) ?? 0`
abbrev pub count_of : Option ℕ → ℕ
count_of none = 0
count_of (some n) = n

abbrev pub participant_count : ℕ → String → Hub → ℕ
participant_count room user h = count_of (get_in h.room_participants room user)

-- The sockets of a room and the room of the socket, which `joinActiveRoom` writes first.
unfoldable pub enter_room : ℕ → ℕ → Hub → Hub
enter_room room ws h = record h {
  sockets = put_socket h.sockets ws (record (h.sockets ws) { current_room_id = some room });
  active_rooms = set_in h.active_rooms room ws tt;
}

unfoldable pub join_active_room : ℕ → ℕ → Hub → Bool × Hub
unfolding enter_room
join_active_room room ws h = elim (truthy (h.sockets ws).user_id) [
  | none ↦ (false, enter_room room ws h)
  | some user ↦ (
    nat_beq (participant_count room user h) 0,
    record (enter_room room ws h) {
      room_participants = set_in h.room_participants room user (participant_count room user h + 1);
    },
  )
]

-- The end of `leaveActiveRoom`, where the user is one of the room's participants' keys or not.
unfoldable pub count_down : ℕ → String → Hub → Bool × Hub
count_down room user h =
    if leb (participant_count room user h) 1
    then (true, record h { room_participants = delete_in h.room_participants room user })
    else (
      false,
      record h {
        room_participants =
            set_in h.room_participants room user (participant_count room user h - 1);
      },
    )

unfoldable pub leave_active_room : ℕ → ℕ → Hub → Bool × Hub
unfolding count_down
leave_active_room room ws h =
    if not (JsMap.has h.active_rooms room)
    then (false, h)
    else let h' : Hub = record h { active_rooms = delete_in h.active_rooms room ws } in
      elim (truthy (h.sockets ws).user_id) [
        | none ↦ (false, h')
        | some user ↦
            if not (JsMap.has h.room_participants room)
            then (false, h')
            else count_down room user h'
      ]

-- The sockets of a room, in the order in which they joined.
abbrev pub room_sockets : ℕ → Hub → List ℕ
room_sockets room h = JsMap.keys (inner (JsMap.get h.active_rooms room))

-- One `socket.send` for each of the sockets.
abbrev pub send_each : ServerMessage → List ℕ → List (ℕ × ServerMessage)
send_each message = map (λ w. (w, message))

unfoldable pub broadcast_to_room : ℕ → ServerMessage → ℕ → Hub → Hub
broadcast_to_room room message sender h = record h {
  sent =
      h.sent
      ++ send_each message
          (select (λ w. not (nat_beq w sender) && (h.sockets w).is_open) (room_sockets room h));
}

unfoldable pub broadcast_to_room_all : ℕ → ServerMessage → Hub → Hub
broadcast_to_room_all room message h = record h {
  sent = h.sent ++ send_each message (select (λ w. (h.sockets w).is_open) (room_sockets room h));
}

abbrev pub is_one_of : List String → Option String → Bool
is_one_of users none = false
is_one_of users (some user) = any (λ u. u == user) users

unfoldable pub broadcast_to_room_users : ℕ → ServerMessage → List String → Hub → Hub
broadcast_to_room_users room message users h = record h {
  sent =
      h.sent
      ++ send_each message (
          select (λ w. is_one_of users (truthy (h.sockets w).user_id) && (h.sockets w).is_open)
            (room_sockets room h));
}

unfoldable pub set_room_presence : ℕ → String → RoomPresence → Hub → Hub
set_room_presence room user presence h = record h {
  room_presences = set_in h.room_presences room user presence;
}

unfoldable pub remove_room_presence : ℕ → String → Hub → Hub
remove_room_presence room user h = record h {
  room_presences = delete_in h.room_presences room user;
}

unfoldable pub get_room_presence_state : ℕ → Hub → RoomPresenceState
get_room_presence_state room h = record {
  room_id = room;
  connected_users_count = JsMap.size (inner (JsMap.get h.room_participants room));
  presences = JsMap.values (inner (JsMap.get h.room_presences room));
}

-- Restarts the debounce timer of the room.
unfoldable pub broadcast_room_presence_state : ℕ → Hub → Hub
broadcast_room_presence_state room h = record h {
  pending_presence_broadcast = JsMap.set h.pending_presence_broadcast room tt;
}

-- The callback of that timer, without the publish to the other nodes.
unfoldable pub fire_presence_broadcast : ℕ → Hub → Hub
unfolding broadcast_to_room_all get_room_presence_state
fire_presence_broadcast room h =
    let h' : Hub = record h {
      pending_presence_broadcast = JsMap.delete h.pending_presence_broadcast room;
    } in
    broadcast_to_room_all room (room_presence_state (get_room_presence_state room h')) h'

merge_presences : ℕ → List RoomPresence → Hub → Hub
merge_presences room [] h = h
merge_presences room (p ∷ ps) h = merge_presences room ps (set_room_presence room p.user_id p h)

unfoldable pub apply_remote_presence_state : ℕ → List RoomPresence → ℕ → Hub → Hub
unfolding merge_presences set_room_presence broadcast_to_room_all
apply_remote_presence_state room presences connected_users_count h =
    let h' = merge_presences room presences h in
    broadcast_to_room_all room
      (room_presence_state (record {
        room_id = room;
        connected_users_count =
            JsMap.size (inner (JsMap.get h'.room_participants room)) + connected_users_count;
        presences = JsMap.values (inner (JsMap.get h'.room_presences room));
      }))
      h'

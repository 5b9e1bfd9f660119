-- ===== src/Ws/Handler/Presence.antt =====
-- messageHandler.ts: join_room, update_presence and ephemeral.
use canvassync.Prelude.{
  ℕ, ◌+◌, ◌-◌, max, String, Bool, true, false, not, Option, none, some, List, [], ◌∷◌, ◌++◌,
  nat_beq, if◌then◌else◌, ◌==◌, string_key, nat_key,
}
use canvassync.Ws.Protocol.{
  RoomRole, PresenceCursor, EphemeralEvent, timer, voice, rtc, room_joined, ephemeral_broadcast,
}
use canvassync.Ws.Connections.{
  Socket, RoomTimer, Hub, truthy, put_socket, set_room_timer, get_room_timer, set_voice_participant,
  get_voice_participants, join_active_room, broadcast_to_room, broadcast_to_room_users,
  set_room_presence, get_room_presence_state, broadcast_room_presence_state,
}
use canvassync.Ws.Redis.{RoomSyncState}
use canvassync.Ws.Node.{
  Node, ephemeral_event, send, send_error, with_hub, is_ephemeral_rate_limited, get_room_role,
  can_edit_room, reject_forbidden, initialize_room_sync,
}
use canvassync.Ws.Env.{Env}

-- `ws.currentRoomId` where the code asks whether it is truthy.
abbrev pub truthy_room : Option ℕ → Option ℕ
truthy_room none = none
truthy_room (some room) = if nat_beq room 0 then none else some room

-- `ws.currentRoomId !== roomId`, negated.
abbrev pub is_active : Option ℕ → ℕ → Bool
is_active none room = false
is_active (some active) room = nat_beq active room

module _ (env : Env) where
  -- `ws.userName ?? `User ${…}``
  abbrev pub name_of : Socket → String → String
  name_of s user = elim s.user_name [ none ↦ env.default_name user | some name ↦ name ]

  unfoldable pub show_user : ℕ → ℕ → Bool → Hub → Hub
  unfolding set_room_presence
  show_user room ws first h = elim (truthy (h.sockets ws).user_id) [
    | none ↦ h
    | some user ↦
        if first
        then set_room_presence room user
            (record {
              user_id = user;
              user_name = name_of (h.sockets ws) user;
              cursor = none;
              selected_ids = [];
              tool = none;
            })
            h
        else h
  ]

  -- The countdown that a late joiner picks up.
  unfoldable pub send_timer : ℕ → ℕ → Node → Node
  unfolding send get_room_timer
  send_timer room ws n =
      let (running, h) = get_room_timer env.now room n.hub in
      let n' : Node = record n { hub = h } in
      elim running [
        | none ↦ n'
        | some t ↦
            send ws
              (ephemeral_broadcast room t.sender_id t.sender_name
                (timer (some (max 1 (t.ends_at - env.now))) t.label))
              n'
      ]

  unfoldable pub send_voices : ℕ → ℕ → String → List (String × String) → Node → Node
  unfolding send
  send_voices room ws user [] n = n
  send_voices room ws user ((u, name) ∷ rest) n =
      send_voices room ws user rest
        (if u == user then n else send ws (ephemeral_broadcast room u name (voice true)) n)

  abbrev with_role : ℕ → Option RoomRole → Node → Node
  with_role ws role n = record n {
    hub = record n.hub {
      sockets =
          put_socket n.hub.sockets ws
            (record (n.hub.sockets ws) { role = role; role_checked_at_ms = some env.now });
    };
  }

  -- From `joinActiveRoom` to the end.
  unfoldable pub enter : ℕ → ℕ → String → Option RoomRole → RoomSyncState → Node → Node
  unfolding join_active_room show_user send send_timer send_voices broadcast_room_presence_state
      get_room_presence_state get_voice_participants
  enter room ws user role state n =
      let (first, h) = join_active_room room ws n.hub in
      let h' = show_user room ws first h in
      let presence = get_room_presence_state room h' in
      let n1 =
        send ws
          (room_joined (record {
            room_id = room;
            role = role;
            version = state.version;
            shapes = state.shapes;
            user_id = user;
            connected_users_count = presence.connected_users_count;
            presences = presence.presences;
          }))
          (record n { hub = h' }) in
      let n2 = send_timer room ws n1 in
      let n3 = send_voices room ws user (get_voice_participants room n2.hub) n2 in
      with_hub (broadcast_room_presence_state room) n3

  unfoldable pub handle_join_room : ℕ → String → ℕ → Node → Node
  unfolding get_room_role reject_forbidden initialize_room_sync enter send
  handle_join_room ws user room n =
      if nat_beq room 0
      then send_error ws "Invalid roomId" n
      else elim (get_room_role env.find_room room user) [
        | none ↦ reject_forbidden ws n
        | some role ↦
            let (state, n') =
              initialize_room_sync (env.stored room) env.meanwhile room
                (with_role ws (some role) n) in
            elim state [
              | none ↦ send_error ws "Server error, try again" n'
              | some s ↦ enter room ws user (some role) s n'
            ]
      ]

  unfoldable pub handle_update_presence :
      ℕ → ℕ → Option PresenceCursor → List String → Option String → Node → Node
  unfolding send set_room_presence broadcast_room_presence_state
  handle_update_presence ws room cursor selected_ids tool n =
      if nat_beq room 0
      then send_error ws "Invalid roomId" n
      else elim (truthy_room (n.hub.sockets ws).current_room_id) [
        | none ↦ send_error ws "Forbidden" n
        | some active ↦
            if not (nat_beq active room)
            then send_error ws "Presence update sent for a room that is not active" n
            else elim (truthy (n.hub.sockets ws).user_id) [
              | none ↦ n
              | some user ↦ with_hub (broadcast_room_presence_state room) (
                  with_hub
                    (set_room_presence room user (record {
                      user_id = user;
                      user_name = name_of (n.hub.sockets ws) user;
                      cursor = cursor;
                      selected_ids = selected_ids;
                      tool = tool;
                    }))
                    n)
            ]
      ]

  abbrev deadline : Option ℕ → Option String → String → String → Option RoomTimer
  deadline none label user name = none
  deadline (some remaining) label user name = some (record {
    ends_at = env.now + remaining;
    label = label;
    sender_id = user;
    sender_name = name;
  })

  -- The node's own bookkeeping of an event: the timer and the voice call. The Bool is false where
  -- the handler returns: the sender of a timer may not edit.
  unfoldable pub track_event : ℕ → ℕ → String → String → EphemeralEvent → Hub → Bool × Hub
  unfolding can_edit_room set_room_timer set_voice_participant
  track_event ws room user name (timer remaining label) h =
      let (allowed, h') = can_edit_room env.now env.find_room ws room user h in
      if allowed
      then (true, set_room_timer env.now room (deadline remaining label user name) h')
      else (false, h')
  track_event ws room user name (voice on) h = (true, set_voice_participant room user name on h)
  track_event ws room user name event h = (true, h)

  -- WebRTC signalling goes to its addressee, all else to the rest of the room.
  unfoldable pub relay : ℕ → ℕ → String → String → EphemeralEvent → Hub → Hub
  unfolding broadcast_to_room broadcast_to_room_users
  relay ws room user name (rtc to payload) =
      broadcast_to_room_users room (ephemeral_broadcast room user name (rtc to payload)) (to ∷ [])
  relay ws room user name event =
      broadcast_to_room room (ephemeral_broadcast room user name event) ws

  -- Past the rate limit.
  unfoldable pub accept_ephemeral : ℕ → ℕ → String → EphemeralEvent → Node → Node
  unfolding track_event relay
  accept_ephemeral ws room user event n =
      let name = name_of (n.hub.sockets ws) user in
      let (allowed, h) = track_event ws room user name event n.hub in
      if allowed
      then record n {
        hub = relay ws room user name event h;
        outgoing = n.outgoing ++ ephemeral_event room user name event ∷ [];
      }
      else record n { hub = h }

  unfoldable pub handle_ephemeral : ℕ → ℕ → EphemeralEvent → Node → Node
  unfolding is_ephemeral_rate_limited accept_ephemeral
  handle_ephemeral ws room event n = elim (truthy (n.hub.sockets ws).user_id) [
    | none ↦ n
    | some user ↦
        if not (is_active (n.hub.sockets ws).current_room_id room)
        then n
        else let (limited, n') = is_ephemeral_rate_limited env.now env.ephemeral_limit ws n in
          if limited then n' else accept_ephemeral ws room user event n'
  ]

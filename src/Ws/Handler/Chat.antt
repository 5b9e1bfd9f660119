-- ===== src/Ws/Handler/Chat.antt =====
-- messageHandler.ts: send_chat_message.
use canvassync.Prelude.{
  ℕ, String, Bool, true, false, not, Option, none, some, [], ◌∷◌, ◌++◌, nat_beq, ◌==◌, string_key,
  if◌then◌else◌, nat_key, any,
}
use canvassync.Ws.Protocol.{
  ChatKind, group, direct, comment, PersistedChatMessage, chat_message_created,
}
use canvassync.Ws.Connections.{truthy, broadcast_to_room_all, broadcast_to_room_users}
use canvassync.Ws.Node.{Node, chat_event, send, send_error, with_hub, has_room_access}
use canvassync.Ws.Env.{
  ChatType, group_chat, direct_chat, comment_chat, ChatRow, created, not_ready, failed, Env,
}
use canvassync.Ws.Handler.Presence.{is_active}
use canvassync.Ws.Handler.Snapshot.{current_room_state}

unfoldable pub message_type_of : ChatKind → ChatType
message_type_of direct = direct_chat
message_type_of comment = comment_chat
message_type_of group = group_chat

abbrev pub kind_of : ChatType → ChatKind
kind_of direct_chat = direct
kind_of comment_chat = comment
kind_of group_chat = group

-- mapPersistedChatMessage, with mapChatParticipant for its two users.
unfoldable pub map_persisted_chat_message : ChatRow → PersistedChatMessage
map_persisted_chat_message chat = record {
  id = chat.id;
  room_id = chat.room_id;
  kind = kind_of chat.message_type;
  body = chat.message;
  shape_id = chat.shape_id;
  created_at = chat.created_at;
  sender = chat.user;
  recipient = chat.recipient;
}

-- What the checks of one kind come to: the recipient and the shape, a refusal, or a throw.
pub data Target : Type 0 where
  accepted : (recipient_id shape_id : Option String) → Target
  refused : (reason : String) → Target
  thrown : Target

-- A direct message goes to its two users, any other to the room.
unfoldable pub deliver_chat :
    ℕ → String → ChatKind → Option String → PersistedChatMessage → Node → Node
unfolding broadcast_to_room_all broadcast_to_room_users
deliver_chat room user direct (some to) message n =
    let n' =
      with_hub (broadcast_to_room_users room (chat_message_created message) (user ∷ to ∷ [])) n in
    record n' {
      outgoing = n'.outgoing ++ chat_event room direct (some (user ∷ to ∷ [])) message ∷ [];
    }
deliver_chat room user kind recipient message n =
    let n' = with_hub (broadcast_to_room_all room (chat_message_created message)) n in
    record n' { outgoing = n'.outgoing ++ chat_event room kind none message ∷ [] }

module _ (env : Env) where
  unfoldable pub direct_target : ℕ → String → Option String → Target
  unfolding has_room_access
  direct_target room user recipient = elim (truthy recipient) [
    | none ↦ refused "Invalid direct message recipient"
    | some to ↦
        if to == user
        then refused "Invalid direct message recipient"
        else if has_room_access env.find_room room to
        then accepted (some to) none
        else refused "Recipient is not allowed in this canvas"
  ]

  unfoldable pub comment_target : ℕ → Option String → Node → Target × Node
  unfolding current_room_state
  comment_target room shape n = elim (truthy shape) [
    | none ↦ (refused "Comments must target a shape", n)
    | some id ↦
        let (state, n') = current_room_state env room n in
        elim state [
          | none ↦ (thrown, n')
          | some s ↦
              if any (λ candidate. candidate.id == id) s.shapes
              then (accepted none (some id), n')
              else (refused "Shape not found for comment", n')
        ]
  ]

  unfoldable pub target_of :
      ℕ → String → ChatKind → Option String → Option String → Node → Target × Node
  unfolding direct_target comment_target
  target_of room user group recipient shape n = (accepted none none, n)
  target_of room user direct recipient shape n = (direct_target room user recipient, n)
  target_of room user comment recipient shape n = comment_target room shape n

  -- From `prismaClient.chat.create` on.
  unfoldable pub create_chat :
      ℕ → ℕ → String → ChatKind → String → Option String → Option String → Node → Bool × Node
  unfolding deliver_chat send message_type_of map_persisted_chat_message
  create_chat ws room user kind body recipient shape n =
      elim (env.create_chat (record {
        room_id = room;
        message = body;
        message_type = message_type_of kind;
        user_id = user;
        recipient_id = recipient;
        shape_id = shape;
      })) [
        | created row ↦
            (true, deliver_chat room user kind recipient (map_persisted_chat_message row) n)
        | not_ready ↦ (
          true,
          send_error ws "Chat storage is not ready yet. Apply the latest database schema update." n,
        )
        | failed ↦ (false, n)
      ]

  -- The whole handler. false is a throw.
  unfoldable pub handle_send_chat_message :
      ℕ → ℕ → ChatKind → String → Option String → Option String → Node → Bool × Node
  unfolding target_of create_chat send
  handle_send_chat_message ws room kind body recipient shape n =
      if nat_beq room 0
      then (true, send_error ws "Invalid roomId" n)
      else if not (is_active (n.hub.sockets ws).current_room_id room)
      then (true, send_error ws "Forbidden" n)
      else elim (truthy (n.hub.sockets ws).user_id) [
        | none ↦ (true, n)
        | some user ↦
            let (target, n') = target_of room user kind recipient shape n in
            elim target [
              | thrown ↦ (false, n')
              | refused reason ↦ (true, send_error ws reason n')
              | accepted to id ↦ create_chat ws room user kind body to id n'
            ]
      ]

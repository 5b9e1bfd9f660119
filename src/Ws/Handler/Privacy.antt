-- ===== src/Ws/Handler/Privacy.antt =====
-- messageHandler.ts, send_chat_message: who receives a direct message.
use canvassync.Prelude.{
  ℕ, String, true, some, List, [], ◌∷◌, ◌++◌, ◌≡◌, refl, All, inl, inr, Bool-cases, select, ◌&&◌,
}
use canvassync.Ws.Protocol.{direct, PersistedChatMessage, ServerMessage, chat_message_created}
use canvassync.Ws.Connections.{
  Hub, truthy, send_each, is_one_of, room_sockets, broadcast_to_room_users,
}
use canvassync.Ws.Node.{Node}
use canvassync.Ws.Handler.Chat.{deliver_chat}

-- Every copy goes to an open socket of one of the users.
abbrev pub OnlyTo : List String → Hub → List (ℕ × ServerMessage) → Type 0
OnlyTo users h = All (λ (copy : ℕ × ServerMessage).
    (is_one_of users (truthy (h.sockets copy.0).user_id) && (h.sockets copy.0).is_open) ≡ true)

send_each-OnlyTo :
    (users : List String) (h : Hub) (message : ServerMessage) (sockets : List ℕ)
    → OnlyTo users h (
        send_each message (
          select
            (λ w. is_one_of users (truthy (h.sockets w).user_id) && (h.sockets w).is_open)
            sockets))
send_each-OnlyTo users h message [] = tt
send_each-OnlyTo users h message (w ∷ ws) =
    elim (Bool-cases (is_one_of users (truthy (h.sockets w).user_id) && (h.sockets w).is_open)) [
      | inl to_user ↦ rw to_user (to_user, send_each-OnlyTo users h message ws)
      | inr other ↦ rw other (send_each-OnlyTo users h message ws)
    ]

-- A direct message adds to what the node has sent copies for open sockets of its sender and its
-- recipient alone.
pub deliver_chat-OnlyTo :
    (room : ℕ) (user to : String) (message : PersistedChatMessage) (n : Node)
    → (copies : List (ℕ × ServerMessage)) × ((deliver_chat room user direct
          (some to)
          message
          n).hub.sent
        ≡ n.hub.sent ++ copies)
      × OnlyTo (user ∷ to ∷ []) n.hub copies
unfolding deliver_chat broadcast_to_room_users
deliver_chat-OnlyTo room user to message n = (
  _,
  refl,
  send_each-OnlyTo (user ∷ to ∷ []) n.hub (chat_message_created message) (room_sockets room n.hub),
)

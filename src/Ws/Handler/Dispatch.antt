-- ===== src/Ws/Handler/Dispatch.antt =====
-- messageHandler.ts: handleSocketMessage, and the `catch` of the connection's queue in
-- apps/ws-backend/src/index.ts.
use canvassync.Prelude.{ℕ, String, Bool, true, if◌then◌else◌, ltb}
use canvassync.Ws.Protocol.{
  ClientMessage, join_room, canvas_snapshot, update_presence, ephemeral, send_chat_message,
}
use canvassync.Ws.Node.{Node, send, send_error}
use canvassync.Ws.Env.{Env}
use canvassync.Ws.Handler.Presence.{handle_join_room, handle_update_presence, handle_ephemeral}
use canvassync.Ws.Handler.Snapshot.{handle_canvas_snapshot}
use canvassync.Ws.Handler.Chat.{handle_send_chat_message}

-- What JSON.parse and the schema make of the bytes.
pub data Parsed : Type 0 where
  invalid_json invalid_message : Parsed
  valid : ClientMessage → Parsed

module _ (env : Env) where
  unfoldable pub handle_message : ℕ → String → ClientMessage → Node → Bool × Node
  unfolding handle_join_room handle_update_presence handle_ephemeral handle_canvas_snapshot
      handle_send_chat_message
  handle_message ws user (join_room room) n = (true, handle_join_room env ws user room n)
  handle_message ws user (canvas_snapshot m) n = handle_canvas_snapshot env ws user m n
  handle_message ws user (update_presence room at selected_ids tool) n =
      (true, handle_update_presence env ws room at selected_ids tool n)
  handle_message ws user (ephemeral room event) n = (true, handle_ephemeral env ws room event n)
  handle_message ws user (send_chat_message room kind body recipient shape) n =
      handle_send_chat_message env ws room kind body recipient shape n

  unfoldable pub handle_socket_message : ℕ → String → (bytes : ℕ) → Parsed → Node → Bool × Node
  unfolding handle_message send
  handle_socket_message ws user bytes parsed n =
      if ltb env.max_message_bytes bytes
      then (true, send_error ws "Payload exceeds maximum allowed size" n)
      else elim parsed [
        | invalid_json ↦ (true, send_error ws "Invalid JSON payload" n)
        | invalid_message ↦ (true, send_error ws "Invalid message payload" n)
        | valid message ↦ handle_message ws user message n
      ]

  -- One link of `messageQueue`.
  unfoldable pub on_message : ℕ → String → (bytes : ℕ) → Parsed → Node → Node
  unfolding handle_socket_message send
  on_message ws user bytes parsed n =
      let (returned, n') = handle_socket_message ws user bytes parsed n in
      if returned
      then n'
      else if (n'.hub.sockets ws).is_open
      then send_error ws "Invalid message format" n'
      else n'

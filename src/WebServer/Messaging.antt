-- ===== src/WebServer/Messaging.antt =====
-- WebServer.cpp, messaging: broadcasts, messages to one client, and the parts of a response.
use evo_runtime.Common.{Bool, true, false, Option, none, some, [], ◌∷◌, if◌then◌else◌, not}
use evo_runtime.Common.Bytes.{Bytes}
use evo_runtime.Common.Map.{Map, find, erase}
use evo_runtime.WebServer.Status.{
  SendStatus, success, dropped, OpCode, HttpSendStatus, encode_result,
}
use evo_runtime.WebServer.State.{WebSocket, UwsCall, Uws, WebServer, ask}
use evo_runtime.WebServer.Connections.{find_client_by_id}

-- Any value but DROPPED leaves the status as it is.
abbrev pub worse : SendStatus → SendStatus → SendStatus
worse status dropped = dropped
worse status _ = status

module _ (uws : Uws) where
  unfoldable pub send_to : WebSocket → Bytes → OpCode → Bool → WebServer → SendStatus × WebServer
  send_to websocket message op_code compress s =
      let t = ask (UwsCall.sends websocket message op_code compress) s in (uws.send t.calls, t)

  -- The loop of the three broadcasts; a null pointer is skipped.
  unfoldable pub broadcast_each :
      Bytes
      → OpCode
      → Bool
      → Map (Option WebSocket)
      → SendStatus
      → WebServer
      → SendStatus × WebServer
  unfolding send_to
  broadcast_each message op_code compress [] status s = (status, s)
  broadcast_each message op_code compress ((id, none) ∷ rest) status s =
      broadcast_each message op_code compress rest status s
  broadcast_each message op_code compress ((id, some websocket) ∷ rest) status s =
      let (current, t) = send_to websocket message op_code compress s in
      broadcast_each message op_code compress rest (worse status current) t

  unfoldable pub broadcast_text_message : Bytes → WebServer → SendStatus × WebServer
  unfolding broadcast_each
  broadcast_text_message message s =
      broadcast_each message OpCode.text false s.websocket_clients success s

  unfoldable pub broadcast_binary_message : Bytes → WebServer → SendStatus × WebServer
  unfolding broadcast_each
  broadcast_binary_message message s =
      broadcast_each message OpCode.binary false s.websocket_clients success s

  unfoldable pub broadcast_compressed_text_message : Bytes → WebServer → SendStatus × WebServer
  unfolding broadcast_each
  broadcast_compressed_text_message message s =
      broadcast_each message OpCode.text true s.websocket_clients success s

  unfoldable pub send_text_message_to_client : Bytes → Bytes → WebServer → SendStatus × WebServer
  unfolding send_to find_client_by_id
  send_text_message_to_client message id s = elim (find_client_by_id id s) [
    | none ↦ (dropped, s)
    | some websocket ↦ send_to websocket message OpCode.text false s
  ]

  unfoldable pub send_binary_message_to_client : Bytes → Bytes → WebServer → SendStatus × WebServer
  unfolding send_to find_client_by_id
  send_binary_message_to_client message id s = elim (find_client_by_id id s) [
    | none ↦ (dropped, s)
    | some websocket ↦ send_to websocket message OpCode.binary false s
  ]

  unfoldable pub send_compressed_text_message_to_client :
      Bytes → Bytes → WebServer → SendStatus × WebServer
  unfolding send_to find_client_by_id
  send_compressed_text_message_to_client message id s = elim (find_client_by_id id s) [
    | none ↦ (dropped, s)
    | some websocket ↦ send_to websocket message OpCode.text true s
  ]

  unfoldable pub write_response : Bytes → Bytes → WebServer → HttpSendStatus × WebServer
  write_response id text s = elim (find id s.http_clients) [
    | none ↦ (HttpSendStatus.none, s)
    | some client ↦
        let t = ask (UwsCall.writes client.response text) s in
        (if not (uws.write t.calls) then HttpSendStatus.none else HttpSendStatus.sent_and_ended, t)
  ]

  unfoldable pub end_response : Bytes → Bytes → WebServer → HttpSendStatus × WebServer
  end_response id text s = elim (find id s.http_clients) [
    | none ↦ (HttpSendStatus.none, s)
    | some client ↦
        let t = ask (UwsCall.ends client.response text) s in
        (HttpSendStatus.sent_and_ended, record t { http_clients = erase id t.http_clients })
  ]

  unfoldable pub try_end_response : Bytes → Bytes → WebServer → HttpSendStatus × WebServer
  try_end_response id text s = elim (find id s.http_clients) [
    | none ↦ (HttpSendStatus.none, s)
    | some client ↦
        let t = ask (UwsCall.tries_end client.response text) s in
        let (first, second) = uws.try_end t.calls in
        (
          encode_result first second,
          if second then record t { http_clients = erase id t.http_clients } else t,
        )
  ]

  unfoldable pub write_response_status : Bytes → Bytes → WebServer → Bool × WebServer
  write_response_status id text s = elim (find id s.http_clients) [
    | none ↦ (false, s)
    | some client ↦
        let t = ask (UwsCall.writes_status client.response text) s in (uws.write_status t.calls, t)
  ]

  unfoldable pub write_response_header : Bytes → Bytes → Bytes → WebServer → Bool × WebServer
  write_response_header id key value s = elim (find id s.http_clients) [
    | none ↦ (false, s)
    | some client ↦
        let t = ask (UwsCall.writes_header client.response key value) s in
        (uws.write_header t.calls, t)
  ]

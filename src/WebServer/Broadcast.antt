-- ===== src/WebServer/Broadcast.antt =====
-- What the messaging functions ask of uws, and what they report.
use evo_runtime.Common.{
  ℕ, ◌≡◌, refl, ap, sym, ◌∙◌, Bool, true, false, Option, none, some, List, [], ◌∷◌, ◌++◌,
  append-nil, append_assoc,
}
use mathlib.Core.Path.{ap₂}
use evo_runtime.Common.Bytes.{Bytes, key_eq_refl}
use evo_runtime.Common.Map.{Map}
use evo_runtime.WebServer.Status.{SendStatus, success, dropped, OpCode}
use evo_runtime.WebServer.State.{WebSocket, UwsCall, Uws, WebServer, ask}
use evo_runtime.WebServer.Callbacks.{on_websocket_close}
use evo_runtime.WebServer.Connections.{find_client_by_id}
use evo_runtime.WebServer.Messaging.{
  worse, send_to, broadcast_each, broadcast_text_message, broadcast_binary_message,
  broadcast_compressed_text_message, send_text_message_to_client, send_binary_message_to_client,
  send_compressed_text_message_to_client,
}
use evo_runtime.WebServer.Clients.{live, find_client_by_id-on_websocket_close}

-- One send for each socket.
abbrev pub send_calls : Bytes → OpCode → Bool → List WebSocket → List UwsCall
send_calls message op_code compress [] = []
send_calls message op_code compress (w ∷ ws) =
    UwsCall.sends w message op_code compress ∷ send_calls message op_code compress ws

-- The answers to these sends, made behind the calls in `log`.
abbrev pub answers : Uws → List UwsCall → List UwsCall → List SendStatus
answers uws log [] = []
answers uws log (c ∷ cs) = uws.send (log ++ c ∷ []) ∷ answers uws (log ++ c ∷ []) cs

-- DROPPED if any of the answers is, SUCCESS if none is.
abbrev pub any_dropped : List SendStatus → SendStatus
any_dropped [] = success
any_dropped (dropped ∷ rest) = dropped
any_dropped (_ ∷ rest) = any_dropped rest

-- What a broadcast that makes the calls `cs` returns.
abbrev pub broadcast_result : Uws → List UwsCall → WebServer → SendStatus × WebServer
broadcast_result uws cs s =
    (any_dropped (answers uws s.calls cs), record s { calls = s.calls ++ cs })

worse_dropped : (a : SendStatus) → worse dropped a ≡ dropped
worse_dropped success = refl
worse_dropped _ = refl

by_answer :
    (f : SendStatus → SendStatus) (a : SendStatus) (rest : List SendStatus)
    → f success ≡ any_dropped rest
    → f dropped ≡ dropped
    → f (worse success a) ≡ any_dropped (a ∷ rest)
by_answer f dropped rest ih d = d
by_answer f _ rest ih d = ih

module _ (uws : Uws) (message : Bytes) (op_code : OpCode) (compress : Bool) where
  pub broadcast_each-state :
      (m : Map (Option WebSocket)) (status : SendStatus) (s : WebServer)
      → (broadcast_each uws message op_code compress m status s).1
        ≡ record s { calls = s.calls ++ send_calls message op_code compress (live m) }
  unfolding broadcast_each send_to ask
  broadcast_each-state [] status s = ap (λ l. record s { calls = l }) (sym (append-nil s.calls))
  broadcast_each-state ((id, none) ∷ rest) status s = broadcast_each-state rest status s
  broadcast_each-state ((id, some w) ∷ rest) status s =
      let c = UwsCall.sends w message op_code compress in
      broadcast_each-state rest (worse status (uws.send (s.calls ++ c ∷ []))) (ask c s)
      ∙ ap (λ l. record s { calls = l }) (append_assoc s.calls (c ∷ []) _)

  dropped_stays :
      (m : Map (Option WebSocket)) (s : WebServer)
      → (broadcast_each uws message op_code compress m dropped s).0 ≡ dropped
  unfolding broadcast_each send_to
  dropped_stays [] s = refl
  dropped_stays ((id, none) ∷ rest) s = dropped_stays rest s
  dropped_stays ((id, some w) ∷ rest) s =
      let t = ask (UwsCall.sends w message op_code compress) s in
      ap (λ a. (broadcast_each uws message op_code compress rest a t).0)
        (worse_dropped (uws.send t.calls))
      ∙ dropped_stays rest t

  pub broadcast_each-status :
      (m : Map (Option WebSocket)) (s : WebServer)
      → (broadcast_each uws message op_code compress m success s).0
        ≡ any_dropped (answers uws s.calls (send_calls message op_code compress (live m)))
  unfolding broadcast_each send_to ask
  broadcast_each-status [] s = refl
  broadcast_each-status ((id, none) ∷ rest) s = broadcast_each-status rest s
  broadcast_each-status ((id, some w) ∷ rest) s =
      let t = ask (UwsCall.sends w message op_code compress) s in
      by_answer (λ a. (broadcast_each uws message op_code compress rest a t).0) (uws.send t.calls) _
        (broadcast_each-status rest t) (dropped_stays rest t)

module _ (uws : Uws) (message : Bytes) (s : WebServer) where
  -- Each broadcast sends the message, with its own kind and compression, once to every live client
  -- and to nobody else, changes nothing of the server, and reports DROPPED exactly if one of the
  -- sends was dropped, and SUCCESS otherwise.
  pub broadcast_lem :
      (broadcast_text_message uws message s
        ≡ broadcast_result uws (send_calls message OpCode.text false (live s.websocket_clients)) s)
      × (broadcast_binary_message uws message s
          ≡ broadcast_result uws
              (send_calls message OpCode.binary false (live s.websocket_clients))
              s)
      × (broadcast_compressed_text_message uws message s
          ≡ broadcast_result uws (send_calls message OpCode.text true (live s.websocket_clients)) s)
  unfolding broadcast_text_message broadcast_binary_message broadcast_compressed_text_message
  broadcast_lem = (both OpCode.text false, both OpCode.binary false, both OpCode.text true)
    where
      both :
          (op_code : OpCode) (compress : Bool)
          → broadcast_each uws message op_code compress s.websocket_clients success s
            ≡ broadcast_result uws
                (send_calls message op_code compress (live s.websocket_clients))
                s
      both op_code compress =
          ap₂ (λ a b. (a, b))
            (broadcast_each-status uws message op_code compress s.websocket_clients s)
            (broadcast_each-state uws message op_code compress s.websocket_clients success s)

-- A message to a client whose connection has closed is DROPPED, in all three kinds, and uws is not
-- asked to use the socket.
pub send_after_close :
    (uws : Uws) (websocket : WebSocket) (code : ℕ) (reason message : Bytes) (s : WebServer)
    → let id = websocket.user_data.client_id in
      let t = on_websocket_close websocket code reason s in
      (send_text_message_to_client uws message id t ≡ (dropped, t))
      × (send_binary_message_to_client uws message id t ≡ (dropped, t))
      × (send_compressed_text_message_to_client uws message id t ≡ (dropped, t))
unfolding send_text_message_to_client send_binary_message_to_client
    send_compressed_text_message_to_client
send_after_close uws websocket code reason message s = (
  rw (gone, send_text_message_to_client),
  rw (gone, send_binary_message_to_client),
  rw (gone, send_compressed_text_message_to_client),
)
  where
    gone :
        find_client_by_id websocket.user_data.client_id (on_websocket_close websocket code reason s)
        ≡ none
    gone =
        find_client_by_id-on_websocket_close websocket.user_data.client_id websocket code reason s
        ∙ rw (key_eq_refl websocket.user_data.client_id)

-- ===== src/WebServer/Connections.antt =====
-- WebServer.cpp, connection management: lookup, disconnection, purging and aborting.
use evo_runtime.Common.{ℕ, ◌+◌, Option, none, some, List, [], ◌∷◌, length}
use evo_runtime.Common.Bytes.{Bytes, codes}
use evo_runtime.Common.Map.{Map, find, keys}
use evo_runtime.WebServer.State.{HttpMessageData, WebSocket, UwsCall, Uws, WebServer, ask}
use evo_runtime.WebServer.Callbacks.{on_websocket_close}

unfoldable pub get_num_connected_clients : WebServer → ℕ
get_num_connected_clients s = length s.websocket_clients

-- A null pointer is `none`: the client is unknown, or has faded.
unfoldable pub find_client_by_id : Bytes → WebServer → Option WebSocket
find_client_by_id id s = elim (find id s.websocket_clients) [
  | none ↦ none
  | some websocket ↦ websocket
]

-- The close handler, where uws calls it at once.
unfoldable pub after_close : Option (ℕ × Bytes) → WebSocket → WebServer → WebServer
after_close none websocket s = s
after_close (some (code, message)) websocket s = on_websocket_close websocket code message s

-- `websocket->close()`
unfoldable pub close_socket : Uws → WebSocket → WebServer → WebServer
unfolding after_close
close_socket uws websocket s =
    let t = ask (UwsCall.closes websocket) s in after_close (uws.close_reports t.calls) websocket t

unfoldable pub close_unless_faded : Uws → Option WebSocket → WebServer → WebServer
unfolding close_socket
close_unless_faded uws none s = s
close_unless_faded uws (some websocket) s = close_socket uws websocket s

-- One round for each entry. The pointer is read from the map as it then is, since the close handler
-- writes to it; it writes to the entry of this round.
unfoldable pub disconnect_each : Uws → List Bytes → WebServer → WebServer
unfolding close_unless_faded find_client_by_id
disconnect_each uws [] s = s
disconnect_each uws (id ∷ ids) s =
    disconnect_each uws ids (close_unless_faded uws (find_client_by_id id s) s)

unfoldable pub disconnect_all_clients : Uws → WebServer → WebServer
disconnect_all_clients uws s = record (disconnect_each uws (keys s.websocket_clients) s) {
  websocket_clients = [];
}

-- The loop of PurgeFadedClients, with its count: what is left of the map from the iterator on.
unfoldable pub purge_from : Map (Option WebSocket) → ℕ → Map (Option WebSocket) × ℕ
purge_from [] count = ([], count)
purge_from ((id, some websocket) ∷ rest) count =
    let (kept, total) = purge_from rest count in ((id, some websocket) ∷ kept, total)
purge_from ((id, none) ∷ rest) count = purge_from rest (count + 1)

unfoldable pub purge_faded_clients : WebServer → ℕ × WebServer
unfolding purge_from
purge_faded_clients s =
    let (kept, count) = purge_from s.websocket_clients 0 in
    (count, record s { websocket_clients = kept })

-- The three calls that answer a pending request at shutdown.
abbrev pub unavailable : ℕ → WebServer → WebServer
unavailable response s =
    ask (UwsCall.ends response (codes "Service Unavailable: Server shutting down")) (
      ask (UwsCall.writes_header response (codes "Content-Type") (codes "text/plain"))
        (ask (UwsCall.writes_status response (codes "503 Service Unavailable")) s))

unfoldable pub abort_each : Map HttpMessageData → ℕ → WebServer → ℕ × WebServer
abort_each [] count s = (count, s)
abort_each ((id, client) ∷ rest) count s =
    abort_each rest (count + 1) (unavailable client.response s)

unfoldable pub abort_all_connections : WebServer → ℕ × WebServer
unfolding abort_each
abort_all_connections s =
    let (count, t) = abort_each s.http_clients 0 s in (count, record t { http_clients = [] })

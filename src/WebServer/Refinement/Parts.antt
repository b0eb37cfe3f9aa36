-- ===== src/WebServer/Refinement/Parts.antt =====
-- The fields of a server that its view is made from.
use evo_runtime.Common.{ℕ, ◌≡◌, ap, Bool, Option, none, some, List}
use evo_runtime.Common.Map.{Map, find}
use evo_runtime.WebServer.State.{DeferredEvent, HttpMessageData, WebSocket, WebServer}
use evo_runtime.WebServer.Connections.{find_client_by_id}
use evo_runtime.WebServer.View.{View, view}

-- What the view is made from.
abbrev pub Parts : Type 0
Parts = Option ℕ × Map (Option WebSocket) × Map HttpMessageData × List DeferredEvent × Bool

abbrev pub parts : WebServer → Parts
parts s =
    (s.listen_socket, s.websocket_clients, s.http_clients, s.deferred_events, s.is_echo_server)

abbrev pub view_of : Parts → View
unfolding find_client_by_id
view_of (l, w, h, q, e) = record {
  listening = l;
  clients = λ id. elim (find id w) [ none ↦ none | some p ↦ p ];
  requests = λ id. find id h;
  queue = q;
  echoes = e;
}

pub view_by_parts : (s : WebServer) (p : Parts) → parts s ≡ p → view s ≡ view_of p
unfolding find_client_by_id
view_by_parts s p e = ap view_of e

pub same_view : (s t : WebServer) → parts t ≡ parts s → view t ≡ view s
unfolding find_client_by_id
same_view s t e = ap view_of e

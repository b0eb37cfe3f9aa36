-- ===== src/WebServer/Invariant.antt =====
-- The shape of the two client maps, kept by every step: no id twice, and each live client under the
-- id that its socket carries.
use evo_runtime.Common.{ℕ, ◌+◌, ◌≡◌, refl, Option, none, some, [], ◌∷◌, arith}
use evo_runtime.Common.Bytes.{Bytes}
use evo_runtime.Common.Map.{
  Map, Distinct, Entries, Distinct-assign, Distinct-erase, Distinct-emplace, Entries-assign,
}
use evo_runtime.WebServer.State.{WebSocket, HttpRequest, Uws, WebServer, enqueue, ask}
use evo_runtime.WebServer.Callbacks.{
  on_upgrade, on_websocket_open, on_websocket_close, on_websocket_message, request_details,
  route_handler, on_data, on_connection_writable, on_connection_aborted,
}
use evo_runtime.WebServer.Connections.{purge_from, purge_faded_clients}
use evo_runtime.WebServer.Messaging.{
  send_text_message_to_client, send_binary_message_to_client,
  send_compressed_text_message_to_client, end_response, try_end_response,
}
use evo_runtime.WebServer.Lifecycle.{on_listen}
use evo_runtime.WebServer.Steps.{Callback, handle}
use evo_runtime.WebServer.Clients.{find-purge_from_none}

abbrev pub Owns : Bytes → Option WebSocket → Type 0
Owns id none = Unit
Owns id (some websocket) = websocket.user_data.client_id ≡ id

pub record WellFormed (s : WebServer) : Type 0 where
  pub clients : Distinct s.websocket_clients
  pub owners : Entries Owns s.websocket_clients
  pub requests : Distinct s.http_clients

-- A step that leaves both maps alone.
abbrev pub SameMaps : WebServer → WebServer → Type 0
SameMaps s t = (t.websocket_clients ≡ s.websocket_clients) × (t.http_clients ≡ s.http_clients)

pub WellFormed-SameMaps : (s t : WebServer) → SameMaps s t → WellFormed s → WellFormed t
WellFormed-SameMaps s t e w = record {
  clients = rw e.0 w.clients;
  owners = rw e.0 w.owners;
  requests = rw e.1 w.requests;
}

on_websocket_open-WellFormed :
    (websocket : WebSocket) (s : WebServer)
    → WellFormed s
    → WellFormed (on_websocket_open websocket s)
unfolding on_websocket_open enqueue
on_websocket_open-WellFormed websocket s w = record {
  clients = Distinct-assign _ _ s.websocket_clients w.clients;
  owners = Entries-assign Owns _ (some websocket) s.websocket_clients refl w.owners;
  requests = w.requests;
}

pub on_websocket_close-WellFormed :
    (websocket : WebSocket) (code : ℕ) (message : Bytes) (s : WebServer)
    → WellFormed s
    → WellFormed (on_websocket_close websocket code message s)
unfolding on_websocket_close enqueue
on_websocket_close-WellFormed websocket code message s w = record {
  clients = Distinct-assign _ _ s.websocket_clients w.clients;
  owners = Entries-assign Owns _ none s.websocket_clients tt w.owners;
  requests = w.requests;
}

route_handler-WellFormed :
    (uuid : Bytes) (response : ℕ) (request : HttpRequest) (route : Bytes) (s : WebServer)
    → WellFormed s
    → WellFormed (route_handler uuid response request route s)
unfolding route_handler enqueue ask
route_handler-WellFormed uuid response request route s w = ground (
  arith,
  Distinct-emplace uuid
      (record { request_details = request_details request route; response = response })
      s.http_clients w.requests,
)

aborted-WellFormed :
    (id : Bytes) (s : WebServer) → WellFormed s → WellFormed (on_connection_aborted id s)
unfolding on_connection_aborted enqueue
aborted-WellFormed id s w = record {
  clients = w.clients;
  owners = w.owners;
  requests = Distinct-erase id _ w.requests;
}

pub handle-WellFormed : (c : Callback) (s : WebServer) → WellFormed s → WellFormed (handle c s)
unfolding handle
handle-WellFormed (Callback.listening port text none) s w =
    WellFormed-SameMaps s _ (unfold on_listen ask in (refl, refl)) w
handle-WellFormed (Callback.listening port text (some socket)) s w =
    WellFormed-SameMaps s _ (unfold on_listen enqueue in (refl, refl)) w
handle-WellFormed (Callback.upgrading uuid response) s w =
    WellFormed-SameMaps s _ (unfold on_upgrade ask in (refl, refl)) w
handle-WellFormed (Callback.opened websocket) s w = on_websocket_open-WellFormed websocket s w
handle-WellFormed (Callback.closed websocket code message) s w =
    on_websocket_close-WellFormed websocket code message s w
handle-WellFormed (Callback.received websocket message op_code) s w =
    WellFormed-SameMaps s _ (unfold on_websocket_message ask enqueue in ground arith) w
handle-WellFormed (Callback.requested uuid response request route) s w =
    route_handler-WellFormed uuid response request route s w
handle-WellFormed (Callback.chunk id text is_last) s w =
    WellFormed-SameMaps s _ (unfold on_data enqueue in ground arith) w
handle-WellFormed (Callback.writable id offset) s w =
    WellFormed-SameMaps s _ (unfold on_connection_writable enqueue in (refl, refl)) w
handle-WellFormed (Callback.aborted id) s w = aborted-WellFormed id s w

-- A message to one client, or a call on a response.
pub send_text-WellFormed :
    (uws : Uws) (text id : Bytes) (s : WebServer)
    → WellFormed s
    → WellFormed (send_text_message_to_client uws text id s).1
unfolding send_text_message_to_client ask
send_text-WellFormed uws text id s w = ground arith

pub send_binary-WellFormed :
    (uws : Uws) (text id : Bytes) (s : WebServer)
    → WellFormed s
    → WellFormed (send_binary_message_to_client uws text id s).1
unfolding send_binary_message_to_client ask
send_binary-WellFormed uws text id s w = ground arith

pub send_compressed-WellFormed :
    (uws : Uws) (text id : Bytes) (s : WebServer)
    → WellFormed s
    → WellFormed (send_compressed_text_message_to_client uws text id s).1
unfolding send_compressed_text_message_to_client ask
send_compressed-WellFormed uws text id s w = ground arith

pub end_response-WellFormed :
    (uws : Uws) (id text : Bytes) (s : WebServer)
    → WellFormed s
    → WellFormed (end_response uws id text s).1
unfolding end_response ask
end_response-WellFormed uws id text s w =
    ground (arith, Distinct-erase id s.http_clients w.requests)

pub try_end_response-WellFormed :
    (uws : Uws) (id text : Bytes) (s : WebServer)
    → WellFormed s
    → WellFormed (try_end_response uws id text s).1
unfolding try_end_response ask
try_end_response-WellFormed uws id text s w =
    ground (arith, Distinct-erase id s.http_clients w.requests)

purge_from-keeps :
    (m : Map (Option WebSocket)) (count : ℕ)
    → Distinct m
    → Entries Owns m
    → Distinct (purge_from m count).0 × Entries Owns (purge_from m count).0
unfolding purge_from
purge_from-keeps [] count d o = (tt, tt)
purge_from-keeps ((id, none) ∷ rest) count d o = purge_from-keeps rest (count + 1) d.1 o.1
purge_from-keeps ((id, some w) ∷ rest) count d o =
    let (d', o') = purge_from-keeps rest count d.1 o.1 in
    ((find-purge_from_none id rest count d.0, d'), (o.0, o'))

pub purge-WellFormed : (s : WebServer) → WellFormed s → WellFormed (purge_faded_clients s).1
unfolding purge_faded_clients
purge-WellFormed s w =
    let (d, o) = purge_from-keeps s.websocket_clients 0 w.clients w.owners in
    record { clients = d; owners = o; requests = w.requests }

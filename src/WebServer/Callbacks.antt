-- ===== src/WebServer/Callbacks.antt =====
-- WebServer.cpp, the functions that uws calls back: the WebSocket handlers, and the handlers of an
-- HTTP request from its first line to its end.
use evo_runtime.Common.{ℕ, Bool, true, false, none, some, List, [], ◌∷◌, if◌then◌else◌}
use evo_runtime.Common.Bytes.{Bytes}
use evo_runtime.Common.Map.{Map, find, assign, emplace, erase}
use evo_runtime.WebServer.Status.{EventType, OpCode}
use evo_runtime.WebServer.State.{
  HttpRequestDetails, WebSocket, HttpRequest, Complaint, UwsCall, WebServer, enqueue, ask,
}

-- `uuid` is the text that `uuid_create_mt19937` writes.
unfoldable pub on_upgrade : Bytes → ℕ → WebServer → WebServer
on_upgrade uuid response s = ask (UwsCall.upgrades response (record { client_id = uuid })) s

unfoldable pub on_websocket_open : WebSocket → WebServer → WebServer
on_websocket_open websocket s =
    let id = websocket.user_data.client_id in
    let t = enqueue EventType.opening id [] s in
    record t { websocket_clients = assign id (some websocket) t.websocket_clients }

-- The entry stays, with a null pointer, until `purge_faded_clients`.
unfoldable pub on_websocket_close : WebSocket → ℕ → Bytes → WebServer → WebServer
on_websocket_close websocket code message s =
    let id = websocket.user_data.client_id in
    let t = enqueue EventType.close id message s in
    record t { websocket_clients = assign id none t.websocket_clients }

unfoldable pub on_websocket_message : WebSocket → Bytes → OpCode → WebServer → WebServer
on_websocket_message websocket message op_code s =
    let t = enqueue EventType.message websocket.user_data.client_id message s in
    if s.is_echo_server then ask (UwsCall.sends websocket message op_code false) t else t

-- `requestDetails.headers[key] = value`, for each header in turn.
unfoldable pub copy_headers : List (Bytes × Bytes) → Map Bytes → Map Bytes
copy_headers [] headers = headers
copy_headers ((key, value) ∷ rest) headers = copy_headers rest (assign key value headers)

unfoldable pub request_details : HttpRequest → Bytes → HttpRequestDetails
unfolding copy_headers
request_details request route = record {
  method = request.method;
  url = request.url;
  query = request.query;
  endpoint = route;
  headers = copy_headers request.headers [];
}

unfoldable pub store_request_details :
    Bytes → ℕ → HttpRequest → Bytes → WebServer → Bool × WebServer
store_request_details id response request route s = elim (find id s.http_clients) [
  | some _ ↦ (false, ask (UwsCall.complains Complaint.request_id_in_use) s)
  | none ↦ (
    true,
    record s {
      http_clients =
          emplace id
            (record { request_details = request_details request route; response = response })
            s.http_clients;
    },
  )
]

unfoldable pub set_callback_handlers : Bytes → ℕ → WebServer → WebServer
set_callback_handlers id response s = ask (UwsCall.sets_callbacks response id) s

unfoldable pub on_request : Bytes → ℕ → HttpRequest → Bytes → WebServer → WebServer
unfolding store_request_details set_callback_handlers
on_request id response request route s =
    let (stored, t) =
      store_request_details id response request route (enqueue EventType.http_start id [] s) in
    set_callback_handlers id response t

-- The handler of a route, of whatever method. `uuid` is the new request's id.
unfoldable pub route_handler : Bytes → ℕ → HttpRequest → Bytes → WebServer → WebServer
unfolding on_request
route_handler uuid response request route s = on_request uuid response request route s

unfoldable pub on_chunk_received : Bytes → Bytes → WebServer → WebServer
on_chunk_received id chunk s = enqueue EventType.http_data id chunk s

unfoldable pub on_last_chunk_received : Bytes → Bytes → WebServer → WebServer
on_last_chunk_received id chunk s = enqueue EventType.http_end id chunk s

-- The function given to `response->onData`.
unfoldable pub on_data : Bytes → Bytes → Bool → WebServer → WebServer
unfolding on_chunk_received on_last_chunk_received
on_data id chunk is_last s =
    if is_last then on_last_chunk_received id chunk s else on_chunk_received id chunk s

unfoldable pub on_connection_writable : Bytes → ℕ → WebServer → WebServer
on_connection_writable id offset s = enqueue EventType.http_writable id [] s

unfoldable pub on_connection_aborted : Bytes → WebServer → WebServer
on_connection_aborted id s =
    let t = enqueue EventType.http_abort id [] s in
    record t { http_clients = erase id t.http_clients }

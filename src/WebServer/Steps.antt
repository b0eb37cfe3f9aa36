-- ===== src/WebServer/Steps.antt =====
-- Everything that can happen to a server, as one step function: the callbacks of uws, in any
-- order, and the calls that come from Lua through Runtime/Bindings/FFI/uws/uws_ffi.cpp. The
-- results of the calls are dropped here; a faulting poll leaves the state.
use evo_runtime.Common.{ℕ, Bool, Option, none, some, List, [], ◌∷◌}
use evo_runtime.Common.Bytes.{Bytes}
use evo_runtime.WebServer.Status.{OpCode, RouteMethod}
use evo_runtime.WebServer.State.{WebSocket, HttpRequest, Uws, WebServer}
use evo_runtime.WebServer.Callbacks.{
  on_upgrade, on_websocket_open, on_websocket_close, on_websocket_message, route_handler, on_data,
  on_connection_writable, on_connection_aborted,
}
use evo_runtime.WebServer.Connections.{purge_faded_clients}
use evo_runtime.WebServer.Messaging.{
  broadcast_text_message, broadcast_binary_message, broadcast_compressed_text_message,
  send_text_message_to_client, send_binary_message_to_client,
  send_compressed_text_message_to_client, write_response, end_response, try_end_response,
  write_response_status, write_response_header,
}
use evo_runtime.WebServer.Events.{EventBuffer, get_next_deferred_event, dump_deferred_events}
use evo_runtime.WebServer.Lifecycle.{
  start_listening, on_listen, stop_listening, add_websocket_route, add_route, set_echo_mode,
}

-- What uws calls.
pub data Callback : Type 0 where
  listening : ℕ → Bytes → Option ℕ → Callback
  upgrading : Bytes → ℕ → Callback
  opened : WebSocket → Callback
  closed : WebSocket → ℕ → Bytes → Callback
  received : WebSocket → Bytes → OpCode → Callback
  requested : Bytes → ℕ → HttpRequest → Bytes → Callback
  chunk : Bytes → Bytes → Bool → Callback
  writable : Bytes → ℕ → Callback
  aborted : Bytes → Callback

-- The exported functions of uws_ffi.cpp that reach a server's state, named as there without
-- `uws_webserver_`. A `const char*` with its length is a text.
pub data Command : Type 0 where
  listen : ℕ → Command
  get_next_event : Option EventBuffer → Command
  stop purge_connections dump_events : Command
  set_echo : Bool → Command
  broadcast_text broadcast_binary broadcast_compressed : Bytes → Command
  send_text send_binary send_compressed : Bytes → Bytes → Command
  response_write response_end response_try_end response_status : Bytes → Bytes → Command
  response_header : Bytes → Bytes → Bytes → Command
  websocket_route : Bytes → Command
  http_route : RouteMethod → Bytes → Command

unfoldable pub handle : Callback → WebServer → WebServer
handle (listening port text socket) s = on_listen port text socket s
handle (upgrading uuid response) s = on_upgrade uuid response s
handle (opened websocket) s = on_websocket_open websocket s
handle (closed websocket code message) s = on_websocket_close websocket code message s
handle (received websocket message op_code) s = on_websocket_message websocket message op_code s
handle (requested uuid response request route) s = route_handler uuid response request route s
handle (chunk id text is_last) s = on_data id text is_last s
handle (writable id offset) s = on_connection_writable id offset s
handle (aborted id) s = on_connection_aborted id s

abbrev after_poll : Option (Option EventBuffer × WebServer) → WebServer → WebServer
after_poll none s = s
after_poll (some (b, t)) s = t

unfoldable pub execute : Uws → Command → WebServer → WebServer
execute uws (listen port) s = start_listening port s
execute uws (get_next_event b) s = after_poll (get_next_deferred_event b s) s
execute uws stop s = stop_listening uws s
execute uws purge_connections s = (purge_faded_clients s).1
execute uws dump_events s = (dump_deferred_events s).1
execute uws (set_echo enabled_flag) s = set_echo_mode enabled_flag s
execute uws (broadcast_text text) s = (broadcast_text_message uws text s).1
execute uws (broadcast_binary text) s = (broadcast_binary_message uws text s).1
execute uws (broadcast_compressed text) s = (broadcast_compressed_text_message uws text s).1
execute uws (send_text text id) s = (send_text_message_to_client uws text id s).1
execute uws (send_binary text id) s = (send_binary_message_to_client uws text id s).1
execute uws (send_compressed text id) s = (send_compressed_text_message_to_client uws text id s).1
execute uws (response_write id text) s = (write_response uws id text s).1
execute uws (response_end id text) s = (end_response uws id text s).1
execute uws (response_try_end id text) s = (try_end_response uws id text s).1
execute uws (response_status id text) s = (write_response_status uws id text s).1
execute uws (response_header id key value) s = (write_response_header uws id key value s).1
execute uws (websocket_route route) s = add_websocket_route route s
execute uws (http_route method route) s = add_route method route s

pub data Action : Type 0 where
  callback : Callback → Action
  command : Command → Action

unfoldable pub step : Uws → Action → WebServer → WebServer
step uws (callback c) s = handle c s
step uws (command c) s = execute uws c s

-- A history of the server, oldest first.
unfoldable pub run : Uws → List Action → WebServer → WebServer
run uws [] s = s
run uws (a ∷ rest) s = run uws rest (step uws a s)

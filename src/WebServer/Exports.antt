-- ===== src/WebServer/Exports.antt =====
-- Runtime/Bindings/FFI/uws/uws_ffi.cpp: the functions that Lua calls. `std::string(text, length)`
-- is the first `length` bytes of a text, and `std::string(id)` what stands before its NUL.
use evo_runtime.Common.{ℕ, Bool, Option, List, [], ◌∷◌, if◌then◌else◌, ◌==◌, take}
use evo_runtime.Common.Bytes.{Bytes, codes, c_string}
use evo_runtime.WebServer.Status.{SendStatus, HttpSendStatus, OpCode, RouteMethod}
use evo_runtime.WebServer.State.{Uws, WebServer, new_server}
use evo_runtime.WebServer.Connections.{get_num_connected_clients, purge_faded_clients}
use evo_runtime.WebServer.Messaging.{
  broadcast_text_message, broadcast_binary_message, broadcast_compressed_text_message,
  send_text_message_to_client, send_binary_message_to_client,
  send_compressed_text_message_to_client, write_response, end_response, try_end_response,
  write_response_status, write_response_header,
}
use evo_runtime.WebServer.Requests.{
  has_request, get_request_method, get_request_url, get_request_query, get_request_endpoint,
  get_request_header, get_serialized_request_headers,
}
use evo_runtime.WebServer.Events.{
  EventBuffer, get_num_deferred_events, has_deferred_events, get_next_deferred_event,
  dump_deferred_events,
}
use evo_runtime.WebServer.State.{DeferredEvent}
use evo_runtime.WebServer.Lifecycle.{
  start_listening, stop_listening, get_max_allowed_payload_size, add_websocket_route, add_route,
  set_echo_mode,
}

-- `uWS::SHARED_COMPRESSOR` is given, as for the constructor.
unfoldable pub uws_webserver_create : ℕ → WebServer
uws_webserver_create shared_compressor = new_server shared_compressor

unfoldable pub uws_webserver_listen : ℕ → WebServer → WebServer
uws_webserver_listen port server = start_listening port server

unfoldable pub uws_webserver_has_event : WebServer → Bool
uws_webserver_has_event server = has_deferred_events server

unfoldable pub uws_webserver_get_next_event :
    Option EventBuffer → WebServer → Option (Option EventBuffer × WebServer)
uws_webserver_get_next_event event server = get_next_deferred_event event server

unfoldable pub uws_webserver_stop : Uws → WebServer → WebServer
uws_webserver_stop uws server = stop_listening uws server

unfoldable pub uws_webserver_set_echo_mode : Bool → WebServer → WebServer
uws_webserver_set_echo_mode enabled_flag server = set_echo_mode enabled_flag server

unfoldable pub uws_webserver_dump_events : WebServer → (ℕ × List DeferredEvent) × WebServer
uws_webserver_dump_events server = dump_deferred_events server

unfoldable pub uws_webserver_get_client_count : WebServer → ℕ
uws_webserver_get_client_count server = get_num_connected_clients server

unfoldable pub uws_webserver_get_event_count : WebServer → ℕ
uws_webserver_get_event_count server = get_num_deferred_events server

unfoldable pub uws_webserver_payload_size : WebServer → ℕ
uws_webserver_payload_size server = get_max_allowed_payload_size server

unfoldable pub uws_webserver_purge_connections : WebServer → ℕ × WebServer
uws_webserver_purge_connections server = purge_faded_clients server

module _ (uws : Uws) where
  unfoldable pub uws_webserver_broadcast_text : Bytes → ℕ → WebServer → SendStatus × WebServer
  uws_webserver_broadcast_text text length server =
      broadcast_text_message uws (take length text) server

  unfoldable pub uws_webserver_broadcast_binary : Bytes → ℕ → WebServer → SendStatus × WebServer
  uws_webserver_broadcast_binary text length server =
      broadcast_binary_message uws (take length text) server

  unfoldable pub uws_webserver_broadcast_compressed : Bytes → ℕ → WebServer → SendStatus × WebServer
  uws_webserver_broadcast_compressed text length server =
      broadcast_compressed_text_message uws (take length text) server

  unfoldable pub uws_webserver_send_text : Bytes → ℕ → Bytes → WebServer → SendStatus × WebServer
  uws_webserver_send_text text length client_id server =
      send_text_message_to_client uws (take length text) (c_string client_id) server

  unfoldable pub uws_webserver_send_binary : Bytes → ℕ → Bytes → WebServer → SendStatus × WebServer
  uws_webserver_send_binary text length client_id server =
      send_binary_message_to_client uws (take length text) (c_string client_id) server

  unfoldable pub uws_webserver_send_compressed :
      Bytes → ℕ → Bytes → WebServer → SendStatus × WebServer
  uws_webserver_send_compressed text length client_id server =
      send_compressed_text_message_to_client uws (take length text) (c_string client_id) server

  unfoldable pub uws_webserver_response_write :
      Bytes → Bytes → ℕ → WebServer → HttpSendStatus × WebServer
  uws_webserver_response_write request_id text length server =
      write_response uws (c_string request_id) (take length text) server

  unfoldable pub uws_webserver_response_end :
      Bytes → Bytes → ℕ → WebServer → HttpSendStatus × WebServer
  uws_webserver_response_end request_id text length server =
      end_response uws (c_string request_id) (take length text) server

  unfoldable pub uws_webserver_response_try_end :
      Bytes → Bytes → ℕ → WebServer → HttpSendStatus × WebServer
  uws_webserver_response_try_end request_id text length server =
      try_end_response uws (c_string request_id) (take length text) server

  unfoldable pub uws_webserver_response_status : Bytes → Bytes → WebServer → Bool × WebServer
  uws_webserver_response_status request_id status_code_and_text server =
      write_response_status uws (c_string request_id) (c_string status_code_and_text) server

  unfoldable pub uws_webserver_response_header :
      Bytes → Bytes → Bytes → WebServer → Bool × WebServer
  uws_webserver_response_header request_id key value server =
      write_response_header uws (c_string request_id) (c_string key) (c_string value) server

unfoldable pub uws_webserver_has_request : Bytes → WebServer → Bool
uws_webserver_has_request request_id server = has_request (c_string request_id) server

unfoldable pub uws_webserver_request_method : Bytes → Bytes → ℕ → WebServer → Option (Bool × Bytes)
uws_webserver_request_method request_id buffer length server =
    get_request_method (c_string request_id) buffer length server

unfoldable pub uws_webserver_request_url : Bytes → Bytes → ℕ → WebServer → Option (Bool × Bytes)
uws_webserver_request_url request_id buffer length server =
    get_request_url (c_string request_id) buffer length server

unfoldable pub uws_webserver_request_query : Bytes → Bytes → ℕ → WebServer → Option (Bool × Bytes)
uws_webserver_request_query request_id buffer length server =
    get_request_query (c_string request_id) buffer length server

unfoldable pub uws_webserver_request_endpoint :
    Bytes → Bytes → ℕ → WebServer → Option (Bool × Bytes)
uws_webserver_request_endpoint request_id buffer length server =
    get_request_endpoint (c_string request_id) buffer length server

unfoldable pub uws_webserver_request_serialized_headers :
    Bytes → Bytes → ℕ → WebServer → Option (Bool × Bytes)
uws_webserver_request_serialized_headers request_id buffer length server =
    get_serialized_request_headers (c_string request_id) buffer length server

unfoldable pub uws_webserver_request_header_value :
    Bytes → Bytes → Bytes → ℕ → WebServer → Option (Bool × Bytes)
uws_webserver_request_header_value request_id header buffer length server =
    get_request_header (c_string request_id) (c_string header) buffer length server

unfoldable pub uws_webserver_add_websocket_route : Bytes → WebServer → WebServer
uws_webserver_add_websocket_route route server = add_websocket_route (c_string route) server

-- The functions for the routes of one method each, from `uws_webserver_add_get_route` on.
unfoldable pub uws_webserver_add_route : RouteMethod → Bytes → WebServer → WebServer
uws_webserver_add_route method route server = add_route method (c_string route) server

unfoldable pub event_name_lookup_table : List (ℕ × Bytes)
event_name_lookup_table =
    (0, codes "UNKNOWN_OR_INVALID_WEBSERVER_EVENT")
    ∷ (1, codes "WEBSOCKET_CONNECTION_ESTABLISHED")
    ∷ (2, codes "WEBSOCKET_MESSAGE_RECEIVED")
    ∷ (3, codes "WEBSOCKET_CONNECTION_CLOSED")
    ∷ (4, codes "SERVER_STARTED_LISTENING")
    ∷ (5, codes "SERVER_STOPPED_LISTENING")
    ∷ (6, codes "HTTP_REQUEST_STARTED")
    ∷ (7, codes "HTTP_DATA_RECEIVED")
    ∷ (8, codes "HTTP_REQUEST_FINISHED")
    ∷ (9, codes "HTTP_CONNECTION_ABORTED")
    ∷ (10, codes "HTTP_CONNECTION_WRITABLE")
    ∷ []

-- `find` on the table, and what it finds or else.
unfoldable pub name_in : List (ℕ × Bytes) → ℕ → Bytes
name_in [] type = codes "UNKNOWN_OR_INVALID_WEBSERVER_EVENT"
name_in ((code, name) ∷ rest) type = if code == type then name else name_in rest type

-- The event is passed by value; only its type is read.
unfoldable pub uws_event_name : ℕ → Bytes
unfolding event_name_lookup_table name_in
uws_event_name type = name_in event_name_lookup_table type

-- `opCodeToString`
unfoldable pub op_code_to_string : OpCode → Bytes
op_code_to_string OpCode.text = codes "TEXT"
op_code_to_string OpCode.binary = codes "BINARY"
op_code_to_string OpCode.close = codes "CLOSE"
op_code_to_string OpCode.ping = codes "PING"
op_code_to_string OpCode.pong = codes "PONG"
op_code_to_string (OpCode.other n) = codes "UNKNOWN"

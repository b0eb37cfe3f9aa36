-- ===== src/WebServer/Lifecycle.antt =====
-- WebServer.cpp, setup: listening, stopping, routes and settings.
use evo_runtime.Common.{ℕ, Bool, Option, none, some}
use evo_runtime.Common.Bytes.{Bytes, codes}
use evo_runtime.WebServer.Status.{EventType, RouteMethod}
use evo_runtime.WebServer.State.{
  WebSocketBehavior, Complaint, UwsCall, Uws, WebServer, enqueue, ask,
}
use evo_runtime.WebServer.Connections.{disconnect_all_clients, abort_all_connections}

-- `StartListening` asks uws to listen; `on_listen` is the function that it passes on. `port_text`
-- is `std::to_string(port)`.
unfoldable pub start_listening : ℕ → WebServer → WebServer
start_listening port s = ask (UwsCall.listens port) s

unfoldable pub on_listen : ℕ → Bytes → Option ℕ → WebServer → WebServer
on_listen port port_text none s = ask (UwsCall.complains (Complaint.failed_listen port)) s
on_listen port port_text (some listen_socket) s =
    enqueue EventType.listen (codes "SERVER") port_text
      (record s { listen_socket = some listen_socket })

unfoldable pub stop_listening : Uws → WebServer → WebServer
stop_listening uws s = elim s.listen_socket [
  | none ↦ ask (UwsCall.complains Complaint.no_listen_socket) s
  | some socket ↦
      let (count, t) = abort_all_connections (disconnect_all_clients uws s) in
      enqueue EventType.shutdown (codes "SERVER") (codes "Going Away")
        (record (ask (UwsCall.closes_listen_socket socket) t) { listen_socket = none })
]

unfoldable pub get_max_allowed_payload_size : WebServer → ℕ
get_max_allowed_payload_size s = s.settings.max_payload_size

unfoldable pub websocket_behavior : WebServer → WebSocketBehavior
websocket_behavior s = record {
  compression = s.settings.compression_mode;
  max_payload_length = s.settings.max_payload_size;
  idle_timeout = s.settings.idle_timeout_in_seconds;
  max_backpressure = s.settings.max_backpressure_limit;
  close_on_backpressure_limit = s.settings.close_on_backpressure_limit;
  reset_idle_timeout_on_send = s.settings.reset_idle_timeout_on_send;
  send_pings_automatically = s.settings.send_pings_automatically;
  max_lifetime = s.settings.max_socket_lifetime_in_minutes;
}

unfoldable pub add_websocket_route : Bytes → WebServer → WebServer
unfolding websocket_behavior
add_websocket_route route s = ask (UwsCall.adds_websocket_route route (websocket_behavior s)) s

-- AddGetRoute to AddAnyRoute, one for each member function of uWS::App.
unfoldable pub add_route : RouteMethod → Bytes → WebServer → WebServer
add_route method route s = ask (UwsCall.adds_route method route) s

unfoldable pub set_echo_mode : Bool → WebServer → WebServer
set_echo_mode enabled_flag s = record s { is_echo_server = enabled_flag }

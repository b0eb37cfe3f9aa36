-- ===== src/WebServer/State.antt =====
-- The data of WebServer.hpp: the server's fields, the records kept for each client, and the calls
-- that it makes of uws. uws itself is not in the repository: `Uws` holds its answers.
use evo_runtime.Common.{ℕ, Bool, true, false, Option, none, List, [], ◌∷◌, ◌++◌, ◌*◌}
use evo_runtime.Common.Bytes.{Bytes}
use evo_runtime.Common.Map.{Map}
use evo_runtime.WebServer.Status.{EventType, SendStatus, OpCode, RouteMethod}

pub record DeferredEvent : Type 0 where
  pub type : EventType
  pub client_id : Bytes
  pub payload : Bytes

pub record HttpRequestDetails : Type 0 where
  pub method : Bytes
  pub url : Bytes
  pub query : Bytes
  pub endpoint : Bytes
  pub headers : Map Bytes

-- The pointer to the uws response is a number.
pub record HttpMessageData : Type 0 where
  pub request_details : HttpRequestDetails
  pub response : ℕ

pub record PerSocketData : Type 0 where
  pub client_id : Bytes

-- A pointer to a uws socket, with what its `getUserData()` points to.
pub record WebSocket : Type 0 where
  pub handle : ℕ
  pub user_data : PerSocketData

-- What uws hands to a route's handler: the request line and the headers, in its order.
pub record HttpRequest : Type 0 where
  pub method : Bytes
  pub url : Bytes
  pub query : Bytes
  pub headers : List (Bytes × Bytes)

pub record Settings : Type 0 where
  pub max_payload_size : ℕ
  pub max_backpressure_limit : ℕ
  pub idle_timeout_in_seconds : ℕ
  pub max_socket_lifetime_in_minutes : ℕ
  pub send_pings_automatically : Bool
  pub close_on_backpressure_limit : Bool
  pub reset_idle_timeout_on_send : Bool
  pub compression_mode : ℕ

-- The fields of uWS::App::WebSocketBehavior that the server sets; its four callbacks are `upgrade`,
-- `open`, `message` and `close` of the module `Callbacks`.
pub record WebSocketBehavior : Type 0 where
  pub compression : ℕ
  pub max_payload_length : ℕ
  pub idle_timeout : ℕ
  pub max_backpressure : ℕ
  pub close_on_backpressure_limit : Bool
  pub reset_idle_timeout_on_send : Bool
  pub send_pings_automatically : Bool
  pub max_lifetime : ℕ

-- The messages that go to `std::cerr`.
pub data Complaint : Type 0 where
  failed_listen : ℕ → Complaint
  no_listen_socket request_id_in_use : Complaint
  missing_event_buffer uninitialized_payload queue_is_empty payload_truncated : Complaint

-- What the server asks of uws, and what it prints to the error stream.
pub data UwsCall : Type 0 where
  listens : ℕ → UwsCall
  closes_listen_socket : ℕ → UwsCall
  adds_websocket_route : Bytes → WebSocketBehavior → UwsCall
  adds_route : RouteMethod → Bytes → UwsCall
  upgrades : ℕ → PerSocketData → UwsCall
  sets_callbacks : ℕ → Bytes → UwsCall
  closes : WebSocket → UwsCall
  sends : WebSocket → Bytes → OpCode → Bool → UwsCall
  writes ends tries_end writes_status : ℕ → Bytes → UwsCall
  writes_header : ℕ → Bytes → Bytes → UwsCall
  complains : Complaint → UwsCall

-- The answers of uws. Each is given all the calls made so far, its own last, so it may depend on
-- any of them. `close_reports` is the close handler's code and message, where `close()` calls the
-- handler before it returns.
pub record Uws : Type 0 where
  pub send : List UwsCall → SendStatus
  pub write : List UwsCall → Bool
  pub try_end : List UwsCall → Bool × Bool
  pub write_status : List UwsCall → Bool
  pub write_header : List UwsCall → Bool
  pub close_reports : List UwsCall → Option (ℕ × Bytes)

-- `calls` is no field of the class: it records what has been asked of uws, oldest first.
pub record WebServer : Type 0 where
  pub listen_socket : Option ℕ
  pub deferred_events : List DeferredEvent
  pub websocket_clients : Map (Option WebSocket)
  pub http_clients : Map HttpMessageData
  pub is_echo_server : Bool
  pub settings : Settings
  pub calls : List UwsCall

-- `uWS::SHARED_COMPRESSOR` is a constant of uws.
unfoldable pub default_settings : ℕ → Settings
default_settings shared_compressor = record {
  max_payload_size = 16 * 1024 * 1024;
  max_backpressure_limit = 64 * 1024;
  idle_timeout_in_seconds = 120;
  max_socket_lifetime_in_minutes = 0;
  send_pings_automatically = true;
  close_on_backpressure_limit = false;
  reset_idle_timeout_on_send = true;
  compression_mode = shared_compressor;
}

unfoldable pub new_server : ℕ → WebServer
unfolding default_settings
new_server shared_compressor = record {
  listen_socket = none;
  deferred_events = [];
  websocket_clients = [];
  http_clients = [];
  is_echo_server = false;
  settings = default_settings shared_compressor;
  calls = [];
}

abbrev pub event : EventType → Bytes → Bytes → DeferredEvent
event t id text = record { type = t; client_id = id; payload = text }

-- `m_deferredEventsQueue.emplace(...)`
unfoldable pub enqueue : EventType → Bytes → Bytes → WebServer → WebServer
enqueue t id text s = record s { deferred_events = s.deferred_events ++ event t id text ∷ [] }

unfoldable pub ask : UwsCall → WebServer → WebServer
ask c s = record s { calls = s.calls ++ c ∷ [] }

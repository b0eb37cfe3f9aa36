-- ===== src/Examples/Server.antt =====
-- A server with a live client, one that has gone, a pending request and one event in its queue, and
-- the theorems of WebServer.cpp about clients, events and histories at this server.
use evo_runtime.Common.{
  ◌≡◌, refl, ◌++◌, true, false, none, some, List, [], ◌∷◌, arith, length, min, ◌-◌,
}
use evo_runtime.Common.Bytes.{Bytes, codes, key_eq}
use evo_runtime.Common.Map.{find}
use evo_runtime.WebServer.Status.{EventType, success, OpCode}
use evo_runtime.WebServer.State.{
  DeferredEvent, HttpMessageData, WebSocket, HttpRequest, Settings, UwsCall, Uws, WebServer,
  new_server, event,
}
use evo_runtime.WebServer.Connections.{
  get_num_connected_clients, find_client_by_id, purge_faded_clients,
}
use evo_runtime.WebServer.Messaging.{
  broadcast_text_message, broadcast_binary_message, broadcast_compressed_text_message,
}
use evo_runtime.WebServer.Events.{EventBuffer, get_next_deferred_event}
use evo_runtime.WebServer.Lifecycle.{stop_listening}
use evo_runtime.WebServer.Steps.{Callback, Command, Action, callback, command, run}
use evo_runtime.WebServer.Clients.{live, faded, purge_faded_clients_lem}
use evo_runtime.WebServer.Broadcast.{send_calls, broadcast_result, broadcast_lem}
use evo_runtime.WebServer.Invariant.{WellFormed}
use evo_runtime.WebServer.Shutdown.{close_calls, close_events, abort_calls, stop_listening_lem}
use evo_runtime.WebServer.Delivery.{Delivered, get_next_deferred_event_lem}
use evo_runtime.WebServer.Histories.{run-new_server-WellFormed}
use evo_runtime.WebServer.Queue.{all_emitted, all_delivered, run-queue}

abbrev pub uws : Uws
uws = record {
  send = λ calls. success;
  write = λ calls. true;
  try_end = λ calls. (true, true);
  write_status = λ calls. true;
  write_header = λ calls. true;
  close_reports = λ calls. some (1000, codes "bye");
}

abbrev pub first_client : WebSocket
first_client = record { handle = 1; user_data = record { client_id = codes "a" } }

abbrev pub request : HttpRequest
request = record {
  method = codes "get";
  url = codes "/x";
  query = codes "q=1";
  headers = (codes "host", codes "one") ∷ (codes "host", codes "two") ∷ [];
}

abbrev pub pending : HttpMessageData
pending = record {
  request_details = record {
    method = codes "get";
    url = codes "/";
    query = [];
    endpoint = codes "/*";
    headers = (codes "host", codes "two") ∷ [];
  };
  response = 9;
}

abbrev four_bytes : Settings
four_bytes = record {
  max_payload_size = 4;
  max_backpressure_limit = 64;
  idle_timeout_in_seconds = 120;
  max_socket_lifetime_in_minutes = 0;
  send_pings_automatically = true;
  close_on_backpressure_limit = false;
  reset_idle_timeout_on_send = true;
  compression_mode = 1;
}

abbrev pub oldest : DeferredEvent
oldest = event EventType.message (codes "a") (codes "abcd")

abbrev pub server : WebServer
server = record {
  listen_socket = some 7;
  deferred_events = oldest ∷ [];
  websocket_clients = (codes "a", some first_client) ∷ (codes "b", none) ∷ [];
  http_clients = (codes "r", pending) ∷ [];
  is_echo_server = false;
  settings = four_bytes;
  calls = [];
}

pub server-WellFormed : WellFormed server
unfolding find key_eq
server-WellFormed = record {
  clients = (refl, (refl, tt));
  owners = (refl, (tt, tt));
  requests = (refl, tt);
}

abbrev pub id_memory : Bytes
id_memory =
    1 ∷ 1 ∷ 1 ∷ 1 ∷ 1 ∷ 1 ∷ 1 ∷ 1 ∷ 1 ∷ 1 ∷ 1 ∷ 1 ∷ 1 ∷ 1 ∷ 1 ∷ 1 ∷ 1 ∷ 1 ∷ 1 ∷ 1 ∷ 1 ∷ 1 ∷ 1 ∷ 1
    ∷ 1 ∷ 1 ∷ 1 ∷ 1 ∷ 1 ∷ 1 ∷ 1 ∷ 1 ∷ 1 ∷ 1 ∷ 1 ∷ 1 ∷ 1 ∷ []

abbrev pub five_bytes : Bytes
five_bytes = 1 ∷ 1 ∷ 1 ∷ 1 ∷ 1 ∷ []

abbrev pub buffer : EventBuffer
buffer = record { type = 0; client_id = id_memory; payload = some five_bytes; payload_size = 0 }

abbrev pub history : List Action
history =
    callback (Callback.requested (codes "s") 10 request (codes "/*"))
    ∷ command (Command.get_next_event (some buffer))
    ∷ callback (Callback.closed first_client 1001 (codes "gone"))
    ∷ command Command.purge_connections
    ∷ command Command.stop
    ∷ []

run-queue_example :
    server.deferred_events ++ all_emitted uws history server
    ≡ all_delivered uws history server ++ (run uws history server).deferred_events
run-queue_example = run-queue uws history server server-WellFormed

run-new_server-WellFormed_example : WellFormed (run uws history (new_server 1))
run-new_server-WellFormed_example = run-new_server-WellFormed uws 1 history

get_next_deferred_event_lem_example :
    (filled : EventBuffer) × (t : WebServer) × (get_next_deferred_event (some buffer) server
      ≡ some (some filled, t))
    × (t.deferred_events ≡ [])
    × Delivered oldest (min (4 - 1) (length oldest.payload)) five_bytes filled
get_next_deferred_event_lem_example =
    get_next_deferred_event_lem server buffer oldest [] five_bytes refl refl refl (omega arith)
      (omega arith) (omega arith)

polled :
    (filled : EventBuffer) × (t : WebServer) × (get_next_deferred_event (some buffer) server
      ≡ some (some filled, t))
polled =
    let (filled, t, returned, _, _) =
      get_next_deferred_event_lem server buffer oldest [] five_bytes refl refl refl (omega arith)
        (omega arith) (omega arith) in
    (filled, t, returned)

stop_listening_lem_example : stop_listening uws server ≡ record server {
  listen_socket = none;
  websocket_clients = [];
  http_clients = [];
  deferred_events =
      (server.deferred_events ++ close_events uws [] (live server.websocket_clients))
      ++ event EventType.shutdown (codes "SERVER") (codes "Going Away") ∷ [];
  calls =
      (close_calls (first_client ∷ []) ++ abort_calls server.http_clients)
      ++ UwsCall.closes_listen_socket 7 ∷ [];
}
stop_listening_lem_example = stop_listening_lem uws server 7 server-WellFormed refl

purge_faded_clients_lem_example :
    ((purge_faded_clients server).0 ≡ faded server.websocket_clients)
    × (faded (purge_faded_clients server).1.websocket_clients ≡ 0)
    × (live (purge_faded_clients server).1.websocket_clients ≡ live server.websocket_clients)
    × (get_num_connected_clients (purge_faded_clients server).1
        ≡ length (live server.websocket_clients))
    × (find_client_by_id (codes "a") (purge_faded_clients server).1
        ≡ find_client_by_id (codes "a") server)
purge_faded_clients_lem_example =
    purge_faded_clients_lem (codes "a") server server-WellFormed.clients

broadcast_lem_example :
    (broadcast_text_message uws (codes "hi") server
      ≡ broadcast_result uws (send_calls (codes "hi") OpCode.text false (first_client ∷ [])) server)
    × (broadcast_binary_message uws (codes "hi") server
        ≡ broadcast_result uws
            (send_calls (codes "hi") OpCode.binary false (first_client ∷ []))
            server)
    × (broadcast_compressed_text_message uws (codes "hi") server
        ≡ broadcast_result uws
            (send_calls (codes "hi") OpCode.text true (first_client ∷ []))
            server)
broadcast_lem_example = broadcast_lem uws (codes "hi") server

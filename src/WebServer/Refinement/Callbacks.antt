-- ===== src/WebServer/Refinement/Callbacks.antt =====
-- What the callbacks of uws do to the view.
use mathlib.Core.Path.{fun_ext}
use evo_runtime.Common.{
  ℕ, ◌≡◌, refl, ap, ◌∙◌, true, false, none, some, [], ◌∷◌, ◌++◌, append-nil, arith,
}
use evo_runtime.Common.Bytes.{Bytes}
use evo_runtime.Common.Map.{Map, find, emplace, find-assign, find-erase}
use evo_runtime.WebServer.Status.{EventType}
use evo_runtime.WebServer.State.{HttpMessageData, HttpRequest, WebServer, event, enqueue, ask}
use evo_runtime.WebServer.Callbacks.{
  request_details, on_upgrade, on_websocket_open, on_websocket_close, on_websocket_message,
  route_handler, on_data, on_connection_writable, on_connection_aborted,
}
use evo_runtime.WebServer.Connections.{find_client_by_id}
use evo_runtime.WebServer.Lifecycle.{on_listen}
use evo_runtime.WebServer.Steps.{Callback, handle}
use evo_runtime.WebServer.Clients.{
  find_client_by_id-on_websocket_open, find_client_by_id-on_websocket_close,
}
use evo_runtime.WebServer.Queue.{reported_by}
use evo_runtime.WebServer.View.{view, added, changed, queued}
use evo_runtime.WebServer.Refinement.Parts.{parts, view_by_parts, same_view}

-- A new request, unless its id is in use.
find-added :
    (id j : Bytes) (client : HttpMessageData) (m : Map HttpMessageData)
    → find j (emplace id client m) ≡ added id client (λ k. find k m) j
unfolding emplace
find-added id j client m = ground (arith, find-assign id j client m)

request-parts :
    (uuid : Bytes) (response : ℕ) (request : HttpRequest) (route : Bytes) (s : WebServer)
    → parts (route_handler uuid response request route s) ≡ (
      s.listen_socket,
      s.websocket_clients,
      emplace uuid
          (record { request_details = request_details request route; response = response })
          s.http_clients,
      s.deferred_events ++ event EventType.http_start uuid [] ∷ [],
      s.is_echo_server,
    )
unfolding route_handler enqueue ask emplace
request-parts uuid response request route s = ground arith

request-view :
    (uuid : Bytes) (response : ℕ) (request : HttpRequest) (route : Bytes) (s : WebServer)
    → view (route_handler uuid response request route s)
      ≡ queued
          (reported_by (Callback.requested uuid response request route))
          (changed (Callback.requested uuid response request route) (view s))
unfolding find_client_by_id
request-view uuid response request route s =
    let client : HttpMessageData = record {
      request_details = request_details request route;
      response = response;
    } in
    view_by_parts (route_handler uuid response request route s) _
      (request-parts uuid response request route s)
    ∙ ap
        (λ f. record (view s) {
          requests = f;
          queue = s.deferred_events ++ event EventType.http_start uuid [] ∷ [];
        })
        (fun_ext (λ j. find-added uuid j client s.http_clients))

pub handle-view :
    (c : Callback) (s : WebServer) → view (handle c s) ≡ queued (reported_by c) (changed c (view s))
unfolding handle on_listen on_upgrade on_websocket_message on_data on_connection_writable
    on_connection_aborted enqueue ask find_client_by_id on_websocket_open on_websocket_close
handle-view (Callback.listening port text none) s =
    same_view (record s { deferred_events = s.deferred_events ++ [] })
      (handle (Callback.listening port text none) s) (ground (arith, append-nil s.deferred_events))
handle-view (Callback.listening port text (some socket)) s = refl
handle-view (Callback.upgrading uuid response) s =
    same_view (record s { deferred_events = s.deferred_events ++ [] })
      (handle (Callback.upgrading uuid response) s) (ground (arith, append-nil s.deferred_events))
handle-view (Callback.opened w) s =
    ap
      (λ f. record (view s) {
        clients = f;
        queue = s.deferred_events ++ event EventType.opening w.user_data.client_id [] ∷ [];
      })
      (fun_ext (λ j. find_client_by_id-on_websocket_open j w s))
handle-view (Callback.closed w code message) s =
    ap
      (λ f. record (view s) {
        clients = f;
        queue = s.deferred_events ++ event EventType.close w.user_data.client_id message ∷ [];
      })
      (fun_ext (λ j. find_client_by_id-on_websocket_close j w code message s))
handle-view (Callback.received w message op_code) s =
    same_view
      (record s {
        deferred_events =
            s.deferred_events ++ event EventType.message w.user_data.client_id message ∷ [];
      })
      (handle (Callback.received w message op_code) s) (ground arith)
handle-view (Callback.requested uuid response request route) s =
    request-view uuid response request route s
handle-view (Callback.chunk id text true) s = refl
handle-view (Callback.chunk id text false) s = refl
handle-view (Callback.writable id offset) s = refl
handle-view (Callback.aborted id) s =
    ap
      (λ f. record (view s) {
        requests = f;
        queue = s.deferred_events ++ event EventType.http_abort id [] ∷ [];
      })
      (fun_ext (λ j. find-erase id j s.http_clients))

-- ===== src/WebServer/Shutdown.antt =====
-- StopListening: which sockets it closes and which requests it answers, although the close handler
-- writes into the map of clients while the loop runs over it.
use evo_runtime.Common.{
  ℕ, ◌+◌, ◌≡◌, ap, sym, ◌∙◌, Option, none, some, List, [], ◌∷◌, ◌++◌, append-nil, append_assoc,
  arith, length,
}
use mathlib.Core.Path.{ap₂}
use evo_runtime.Common.Bytes.{Bytes, codes, key_eq_iff}
use evo_runtime.Common.Map.{Map, find, assign, keys, Distinct, Entries, find-assign}
use evo_runtime.WebServer.Status.{EventType}
use evo_runtime.WebServer.State.{
  DeferredEvent, HttpMessageData, WebSocket, UwsCall, Uws, WebServer, event, enqueue, ask,
}
use evo_runtime.WebServer.Callbacks.{on_websocket_close}
use evo_runtime.WebServer.Connections.{
  find_client_by_id, after_close, close_socket, close_unless_faded, disconnect_each,
  disconnect_all_clients, abort_each, unavailable, abort_all_connections,
}
use evo_runtime.WebServer.Lifecycle.{stop_listening}
use evo_runtime.WebServer.Clients.{live}
use evo_runtime.WebServer.Invariant.{Owns, WellFormed}

abbrev pub close_calls : List WebSocket → List UwsCall
close_calls [] = []
close_calls (w ∷ ws) = UwsCall.closes w ∷ close_calls ws

abbrev pub reported : Option (ℕ × Bytes) → WebSocket → List DeferredEvent
reported none w = []
reported (some (code, message)) w = event EventType.close w.user_data.client_id message ∷ []

-- The CLOSE events of the sockets for which uws calls the close handler at once, when they are
-- closed one after the other behind the calls in `log`.
abbrev pub close_events : Uws → List UwsCall → List WebSocket → List DeferredEvent
close_events uws log [] = []
close_events uws log (w ∷ ws) =
    reported (uws.close_reports (log ++ UwsCall.closes w ∷ [])) w
    ++ close_events uws (log ++ UwsCall.closes w ∷ []) ws

-- The 503 answers to all pending requests.
abbrev pub abort_calls : Map HttpMessageData → List UwsCall
abort_calls [] = []
abort_calls ((id, client) ∷ rest) =
    UwsCall.writes_status client.response (codes "503 Service Unavailable")
    ∷ UwsCall.writes_header client.response (codes "Content-Type") (codes "text/plain")
    ∷ UwsCall.ends client.response (codes "Service Unavailable: Server shutting down")
    ∷ abort_calls rest

-- The map `m` as far as the loop has yet to go, and the same entries in the server's map.
abbrev pub Agree : Map (Option WebSocket) → Map (Option WebSocket) → Type 0
Agree m now = Entries (λ id p. find id now ≡ some p) m

Agree-cons :
    (id : Bytes) (p : Option WebSocket) (m now : Map (Option WebSocket))
    → find id m ≡ none
    → Agree m now
    → Agree m ((id, p) ∷ now)
unfolding find
Agree-cons id p [] now e h = tt
Agree-cons id p ((j, q) ∷ m) now e h =
    ground (arith, key_eq_iff id j, key_eq_iff j id, Agree-cons id p m now)

pub Agree-self : (m : Map (Option WebSocket)) → Distinct m → Agree m m
unfolding find
Agree-self [] d = tt
Agree-self ((id, p) ∷ m) d =
    (ground (arith, key_eq_iff id id), Agree-cons id p m m d.0 (Agree-self m d.1))

Agree-assign :
    (id : Bytes) (p : Option WebSocket) (m now : Map (Option WebSocket))
    → find id m ≡ none
    → Agree m now
    → Agree m (assign id p now)
unfolding find
Agree-assign id p [] now e h = tt
Agree-assign id p ((j, q) ∷ m) now e h =
    ground
      (arith, key_eq_iff id j, key_eq_iff j id, find-assign id j p now, Agree-assign id p m now)

-- The server without its map of clients.
abbrev without_clients : WebServer → WebServer
without_clients s = record s { websocket_clients = [] }

abbrev disconnected : Uws → List WebSocket → WebServer → WebServer
disconnected uws ws s = record s {
  websocket_clients = [];
  deferred_events = s.deferred_events ++ close_events uws s.calls ws;
  calls = s.calls ++ close_calls ws;
}

pub find_client_by_id-found :
    (id : Bytes) (p : Option WebSocket) (s : WebServer)
    → find id s.websocket_clients ≡ some p
    → find_client_by_id id s ≡ p
unfolding find_client_by_id
find_client_by_id-found id p s e = rw (e, find_client_by_id)

module _ (uws : Uws) where
  -- One socket more.
  disconnected-after_close :
      (r : Option (ℕ × Bytes)) (w : WebSocket) (ws : List WebSocket) (s : WebServer)
      → disconnected uws ws (after_close r w (ask (UwsCall.closes w) s)) ≡ record s {
        websocket_clients = [];
        deferred_events =
            s.deferred_events
            ++ (reported r w ++ close_events uws (s.calls ++ UwsCall.closes w ∷ []) ws);
        calls = s.calls ++ (UwsCall.closes w ∷ close_calls ws);
      }
  unfolding after_close ask on_websocket_close enqueue
  disconnected-after_close none w ws s =
      ap
        (λ l. record s {
          websocket_clients = [];
          deferred_events =
              s.deferred_events ++ close_events uws (s.calls ++ UwsCall.closes w ∷ []) ws;
          calls = l;
        })
        (append_assoc s.calls (UwsCall.closes w ∷ []) (close_calls ws))
  disconnected-after_close (some (code, message)) w ws s =
      ap₂ (λ e l. record s { websocket_clients = []; deferred_events = e; calls = l })
        (append_assoc s.deferred_events (reported (some (code, message)) w) _)
        (append_assoc s.calls (UwsCall.closes w ∷ []) (close_calls ws))

  Agree-after_close :
      (r : Option (ℕ × Bytes)) (w : WebSocket) (m : Map (Option WebSocket)) (s : WebServer)
      → find w.user_data.client_id m ≡ none
      → Agree m s.websocket_clients
      → Agree m (after_close r w (ask (UwsCall.closes w) s)).websocket_clients
  unfolding after_close ask on_websocket_close enqueue
  Agree-after_close none w m s e g = g
  Agree-after_close (some (code, message)) w m s e g =
      Agree-assign w.user_data.client_id none m s.websocket_clients e g

  disconnect_each-state :
      (m : Map (Option WebSocket)) (s : WebServer)
      → Distinct m
      → Entries Owns m
      → Agree m s.websocket_clients
      → without_clients (disconnect_each uws (keys m) s) ≡ disconnected uws (live m) s
  unfolding disconnect_each close_unless_faded close_socket
  disconnect_each-state [] s d o g =
      ap₂ (λ e l. record s { websocket_clients = []; deferred_events = e; calls = l })
        (sym (append-nil s.deferred_events)) (sym (append-nil s.calls))
  disconnect_each-state ((id, none) ∷ m) s d o g =
      ap (λ p. without_clients (disconnect_each uws (keys m) (close_unless_faded uws p s)))
        (find_client_by_id-found id none s g.0)
      ∙ disconnect_each-state m s d.1 o.1 g.1
  disconnect_each-state ((id, some w) ∷ m) s d o g =
      let r = uws.close_reports (ask (UwsCall.closes w) s).calls in
      ap (λ p. without_clients (disconnect_each uws (keys m) (close_unless_faded uws p s)))
        (find_client_by_id-found id (some w) s g.0)
      ∙ disconnect_each-state m (after_close r w (ask (UwsCall.closes w) s)) d.1 o.1
          (Agree-after_close r w m s (rw o.0 d.0) g.1)
      ∙ unfold ask in disconnected-after_close r w (live m) s

  pub disconnect_all_clients-state :
      (s : WebServer)
      → WellFormed s
      → disconnect_all_clients uws s ≡ disconnected uws (live s.websocket_clients) s
  unfolding disconnect_all_clients
  disconnect_all_clients-state s w =
      disconnect_each-state s.websocket_clients s w.clients w.owners
        (Agree-self s.websocket_clients w.clients)

abort_each-state :
    (m : Map HttpMessageData) (count : ℕ) (s : WebServer)
    → abort_each m count s ≡ (count + length m, record s { calls = s.calls ++ abort_calls m })
unfolding abort_each ask
abort_each-state [] count s =
    ap₂ (λ n l. (n, record s { calls = l })) (omega arith) (sym (append-nil s.calls))
abort_each-state ((id, client) ∷ m) count s =
    abort_each-state m (count + 1) (unavailable client.response s)
    ∙ ap₂ (λ n l. (n, record s { calls = l })) (omega arith) (simp append_assoc)

-- AbortAllConnections answers every pending request with status 503, in order, and then forgets
-- them all; it returns how many there were.
pub abort_all_connections_lem :
    (s : WebServer)
    → abort_all_connections s ≡ (
      length s.http_clients,
      record s { http_clients = []; calls = s.calls ++ abort_calls s.http_clients },
    )
unfolding abort_all_connections
abort_all_connections_lem s = rw (abort_each-state s.http_clients 0 s) (
    ap (λ n. (n, record s { http_clients = []; calls = s.calls ++ abort_calls s.http_clients }))
      (omega arith))

-- A listening server that stops: every live client is closed once and every pending request gets
-- its 503, in this order, before the listening socket is closed; no client and no request is left;
-- the events queued are those already there, the CLOSE events of the clients whose close handler
-- uws runs at once, and one SHUTDOWN at the end.
pub stop_listening_lem :
    (uws : Uws) (s : WebServer) (socket : ℕ)
    → WellFormed s
    → s.listen_socket ≡ some socket
    → stop_listening uws s ≡ record s {
      listen_socket = none;
      websocket_clients = [];
      http_clients = [];
      deferred_events =
          (s.deferred_events ++ close_events uws s.calls (live s.websocket_clients))
          ++ event EventType.shutdown (codes "SERVER") (codes "Going Away") ∷ [];
      calls =
          ((s.calls ++ close_calls (live s.websocket_clients)) ++ abort_calls s.http_clients)
          ++ UwsCall.closes_listen_socket socket ∷ [];
    }
unfolding stop_listening enqueue ask
stop_listening_lem uws s socket w e = rw (
  e,
  stop_listening,
  disconnect_all_clients-state uws s w,
  abort_all_connections_lem (disconnected uws (live s.websocket_clients) s),
)

-- ===== src/WebServer/Refinement/Commands.antt =====
-- What the calls from Lua do to the view.
use mathlib.Core.Path.{fun_ext}
use evo_runtime.Common.{
  ℕ, ◌≡◌, refl, ap, ◌∙◌, Option, none, some, List, [], ◌∷◌, ◌++◌, ◌⊎◌, inl, inr, All, arith,
  Option-cases,
}
use evo_runtime.Common.Bytes.{Bytes, key_eq_iff}
use evo_runtime.Common.Map.{Map, find, erase, Entries, find-erase}
use evo_runtime.WebServer.State.{DeferredEvent, WebSocket, Uws, WebServer, ask}
use evo_runtime.WebServer.Connections.{find_client_by_id, purge_faded_clients}
use evo_runtime.WebServer.Events.{EventBuffer, get_next_deferred_event}
use evo_runtime.WebServer.Steps.{Command, execute}
use evo_runtime.WebServer.Invariant.{WellFormed}
use evo_runtime.WebServer.View.{View, view, set_at, Allows, Stops, Closes}
use evo_runtime.WebServer.Refinement.Parts.{parts, view_by_parts, same_view}
use evo_runtime.Common.{All-append}
use evo_runtime.WebServer.Connections.{find_client_by_id}
use evo_runtime.WebServer.Lifecycle.{
  start_listening, stop_listening, add_websocket_route, add_route, set_echo_mode,
}
use evo_runtime.WebServer.Events.{EventBuffer, get_next_deferred_event, dump_deferred_events}
use evo_runtime.WebServer.Messaging.{
  send_text_message_to_client, send_binary_message_to_client,
  send_compressed_text_message_to_client, broadcast_text_message, broadcast_binary_message,
  broadcast_compressed_text_message, write_response, end_response, try_end_response,
  write_response_status, write_response_header,
}
use evo_runtime.WebServer.State.{UwsCall}
use evo_runtime.WebServer.Clients.{live, purge_faded_clients_lem}
use evo_runtime.WebServer.Delivery.{get_next_deferred_event-rest, dump_deferred_events_lem}
use evo_runtime.WebServer.Broadcast.{broadcast_lem}
use evo_runtime.WebServer.Invariant.{Owns}
use evo_runtime.WebServer.Shutdown.{
  find_client_by_id-found, reported, close_events, Agree, Agree-self, stop_listening_lem,
}

poll-rest :
    (b b' : Option EventBuffer) (s t : WebServer)
    → get_next_deferred_event b s ≡ some (b', t)
    → (t.listen_socket ≡ s.listen_socket) × (t.is_echo_server ≡ s.is_echo_server)
unfolding get_next_deferred_event ask
poll-rest none b' s t h = ground arith
poll-rest (some b) b' s t h = ground arith

poll-parts :
    (b b' : Option EventBuffer) (s t : WebServer)
    → get_next_deferred_event b s ≡ some (b', t)
    → (parts t ≡ parts s)
      ⊎ ((e : DeferredEvent) × (parts s
            ≡ parts (record t { deferred_events = e ∷ t.deferred_events })))
poll-parts b b' s t h =
    let (l, e) = poll-rest b b' s t h in
    let (w, r, q) = get_next_deferred_event-rest b b' s t h in
    elim q [
      | inl same ↦ inl (rw (l, e, w, r, same) refl)
      | inr (x, taken) ↦ inr (x, rw (l, e, w, r, taken) refl)
    ]

poll-view :
    (uws : Uws) (b : Option EventBuffer) (s : WebServer)
    → Allows (Command.get_next_event b) (view s) (view (execute uws (Command.get_next_event b) s))
unfolding execute find_client_by_id
poll-view uws b s = elim (Option-cases (get_next_deferred_event b s)) [
  | inl e ↦ rw (e, execute) (inl refl)
  | inr ((b', t), e) ↦ elim (poll-parts b b' s t e) [
    | inl h ↦ rw (e, execute) (inl (same_view s t h))
    | inr (x, h) ↦
        rw (e, execute)
          (inr (x, same_view (record t { deferred_events = x ∷ t.deferred_events }) s h))
  ]
]

-- The close handler runs for connected clients only.
Closes-reported :
    (r : Option (ℕ × Bytes)) (w : WebSocket) (v : View)
    → v.clients w.user_data.client_id ≡ some w
    → All (Closes v) (reported r w)
Closes-reported none w v h = tt
Closes-reported (some (code, message)) w v h = ((refl, (w, h)), tt)

Closes-close_events :
    (uws : Uws) (log : List UwsCall) (m : Map (Option WebSocket)) (v : View) (s : WebServer)
    → v ≡ view s
    → Entries Owns m
    → Agree m s.websocket_clients
    → All (Closes v) (close_events uws log (live m))
Closes-close_events uws log [] v s e o g = tt
Closes-close_events uws log ((id, none) ∷ m) v s e o g = Closes-close_events uws log m v s e o.1 g.1
Closes-close_events uws log ((id, some w) ∷ m) v s e o g =
    All-append (Closes v) (reported _ w) _
      (Closes-reported _ w v (
        ap (λ u. u.clients w.user_data.client_id) e
        ∙ find_client_by_id-found w.user_data.client_id (some w) s
            (ap (λ k. find k s.websocket_clients) o.0 ∙ g.0)))
      (Closes-close_events uws (log ++ UwsCall.closes w ∷ []) m v s e o.1 g.1)

stop-view :
    (uws : Uws) (s : WebServer) (l : Option ℕ)
    → s.listen_socket ≡ l
    → WellFormed s
    → Stops l (view s) (view (stop_listening uws s))
unfolding find_client_by_id find
stop-view uws s none e w =
    same_view s (stop_listening uws s) (unfold stop_listening ask in ground arith)
stop-view uws s (some socket) e w = (
  close_events uws s.calls (live s.websocket_clients),
  Closes-close_events uws s.calls s.websocket_clients (view s) s refl w.owners
      (Agree-self s.websocket_clients w.clients),
  view_by_parts (stop_listening uws s) _ (ap parts (stop_listening_lem uws s socket w e)),
)

purge-view : (s : WebServer) → WellFormed s → view (purge_faded_clients s).1 ≡ view s
unfolding purge_faded_clients
purge-view s w =
    ap (λ f. record (view s) { clients = f })
      (fun_ext (λ id. (purge_faded_clients_lem id s w.clients).4))

-- After a request has been ended, and where there is no such request.
find-end_response :
    (uws : Uws) (id text j : Bytes) (s : WebServer)
    → find j (end_response uws id text s).1.http_clients
      ≡ set_at id none (λ k. find k s.http_clients) j
unfolding end_response ask
find-end_response uws id text j s = ground (arith, find-erase id j s.http_clients, key_eq_iff id j)

end-parts :
    (uws : Uws) (id text : Bytes) (s : WebServer)
    → let t = (end_response uws id text s).1 in
      parts t
      ≡ (s.listen_socket, s.websocket_clients, t.http_clients, s.deferred_events, s.is_echo_server)
unfolding end_response ask
end-parts uws id text s = ground arith

try_end-parts :
    (uws : Uws) (id text : Bytes) (s : WebServer)
    → (parts (try_end_response uws id text s).1 ≡ parts s)
      ⊎ (parts (try_end_response uws id text s).1 ≡ (
        s.listen_socket,
        s.websocket_clients,
        erase id s.http_clients,
        s.deferred_events,
        s.is_echo_server,
      ))
unfolding try_end_response ask
try_end-parts uws id text s = ground arith

end-view :
    (uws : Uws) (id text : Bytes) (s : WebServer)
    → view (end_response uws id text s).1
      ≡ record (view s) { requests = set_at id none (λ k. find k s.http_clients) }
unfolding find_client_by_id
end-view uws id text s =
    view_by_parts (end_response uws id text s).1 _ (end-parts uws id text s)
    ∙ ap (λ f. record (view s) { requests = f }) (fun_ext (λ j. find-end_response uws id text j s))

try_end-view :
    (uws : Uws) (id text : Bytes) (s : WebServer)
    → (view (try_end_response uws id text s).1 ≡ view s)
      ⊎ (view (try_end_response uws id text s).1
          ≡ record (view s) { requests = set_at id none (λ k. find k s.http_clients) })
unfolding find_client_by_id
try_end-view uws id text s = elim (try_end-parts uws id text s) [
  | inl h ↦ inl (same_view s (try_end_response uws id text s).1 h)
  | inr h ↦ inr (
      view_by_parts (try_end_response uws id text s).1 _ h
      ∙ ap (λ f. record (view s) { requests = f }) (fun_ext (λ j. find-erase id j s.http_clients)))
]

broadcast-view :
    (uws : Uws) (text : Bytes) (s : WebServer)
    → (view (broadcast_text_message uws text s).1 ≡ view s)
      × (view (broadcast_binary_message uws text s).1 ≡ view s)
      × (view (broadcast_compressed_text_message uws text s).1 ≡ view s)
broadcast-view uws text s =
    let (a, b, c) = broadcast_lem uws text s in
    (
      same_view s (broadcast_text_message uws text s).1 (rw a refl),
      same_view s (broadcast_binary_message uws text s).1 (rw b refl),
      same_view s (broadcast_compressed_text_message uws text s).1 (rw c refl),
    )

pub execute-view :
    (uws : Uws) (c : Command) (s : WebServer)
    → WellFormed s
    → Allows c (view s) (view (execute uws c s))
unfolding execute
execute-view uws (Command.listen port) s w = unfold start_listening ask find_client_by_id in refl
execute-view uws (Command.get_next_event b) s w = poll-view uws b s
execute-view uws Command.stop s w = stop-view uws s s.listen_socket refl w
execute-view uws Command.purge_connections s w = purge-view s w
execute-view uws Command.dump_events s w =
    same_view s (dump_deferred_events s).1 (rw (dump_deferred_events_lem s) refl)
execute-view uws (Command.set_echo enabled_flag) s w =
    unfold set_echo_mode find_client_by_id in refl
execute-view uws (Command.broadcast_text text) s w = (broadcast-view uws text s).0
execute-view uws (Command.broadcast_binary text) s w = (broadcast-view uws text s).1
execute-view uws (Command.broadcast_compressed text) s w = (broadcast-view uws text s).2
execute-view uws (Command.send_text text id) s w =
    same_view s (send_text_message_to_client uws text id s).1
      (unfold send_text_message_to_client ask in ground arith)
execute-view uws (Command.send_binary text id) s w =
    same_view s (send_binary_message_to_client uws text id s).1
      (unfold send_binary_message_to_client ask in ground arith)
execute-view uws (Command.send_compressed text id) s w =
    same_view s (send_compressed_text_message_to_client uws text id s).1
      (unfold send_compressed_text_message_to_client ask in ground arith)
execute-view uws (Command.response_write id text) s w =
    same_view s (write_response uws id text s).1 (unfold write_response ask in ground arith)
execute-view uws (Command.response_end id text) s w = end-view uws id text s
execute-view uws (Command.response_try_end id text) s w = try_end-view uws id text s
execute-view uws (Command.response_status id text) s w =
    same_view s (write_response_status uws id text s).1
      (unfold write_response_status ask in ground arith)
execute-view uws (Command.response_header id key value) s w =
    same_view s (write_response_header uws id key value s).1
      (unfold write_response_header ask in ground arith)
execute-view uws (Command.websocket_route route) s w =
    unfold add_websocket_route ask find_client_by_id in refl
execute-view uws (Command.http_route method route) s w =
    unfold add_route ask find_client_by_id in refl

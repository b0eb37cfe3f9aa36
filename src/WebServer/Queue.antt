-- ===== src/WebServer/Queue.antt =====
-- The queue of deferred events over a history: what each action puts in, what a poll takes out.
use evo_runtime.Common.{
  ℕ, ◌-◌, ◌≡◌, refl, sym, ap, ◌∙◌, true, false, inl, inr, Option, none, some, List, [], ◌∷◌, ◌++◌,
  append-nil, append_assoc, arith, length, take, Option-cases,
}
use evo_runtime.Common.Bytes.{codes}
use evo_runtime.WebServer.Status.{EventType}
use evo_runtime.WebServer.State.{DeferredEvent, Uws, WebServer, event, enqueue, ask}
use evo_runtime.WebServer.Callbacks.{
  on_upgrade, on_websocket_open, on_websocket_close, on_websocket_message, route_handler, on_data,
  on_connection_writable, on_connection_aborted,
}
use evo_runtime.WebServer.Connections.{purge_faded_clients}
use evo_runtime.WebServer.Messaging.{
  send_text_message_to_client, send_binary_message_to_client,
  send_compressed_text_message_to_client, write_response, end_response, try_end_response,
  write_response_status, write_response_header,
}
use evo_runtime.WebServer.Events.{EventBuffer, get_next_deferred_event}
use evo_runtime.WebServer.Lifecycle.{
  start_listening, on_listen, stop_listening, add_websocket_route, add_route, set_echo_mode,
}
use evo_runtime.WebServer.Steps.{
  Callback, Command, Action, callback, command, handle, execute, step, run,
}
use evo_runtime.WebServer.Clients.{live}
use evo_runtime.WebServer.Broadcast.{broadcast_lem}
use evo_runtime.WebServer.Invariant.{WellFormed}
use evo_runtime.WebServer.Shutdown.{close_events, stop_listening_lem}
use evo_runtime.WebServer.Delivery.{get_next_deferred_event-rest, dump_deferred_events_lem}
use evo_runtime.WebServer.Histories.{step-WellFormed}

-- The events that a callback of uws gives rise to.
abbrev pub reported_by : Callback → List DeferredEvent
reported_by (Callback.listening port text none) = []
reported_by (Callback.listening port text (some socket)) =
    event EventType.listen (codes "SERVER") text ∷ []
reported_by (Callback.upgrading uuid response) = []
reported_by (Callback.opened w) = event EventType.opening w.user_data.client_id [] ∷ []
reported_by (Callback.closed w code message) =
    event EventType.close w.user_data.client_id message ∷ []
reported_by (Callback.received w message op_code) =
    event EventType.message w.user_data.client_id message ∷ []
reported_by (Callback.requested uuid response request route) =
    event EventType.http_start uuid [] ∷ []
reported_by (Callback.chunk id text true) = event EventType.http_end id text ∷ []
reported_by (Callback.chunk id text false) = event EventType.http_data id text ∷ []
reported_by (Callback.writable id offset) = event EventType.http_writable id [] ∷ []
reported_by (Callback.aborted id) = event EventType.http_abort id [] ∷ []

-- Of the calls from Lua only stopping a listening server gives rise to events.
abbrev stopped : Uws → WebServer → Option ℕ → List DeferredEvent
stopped uws s none = []
stopped uws s (some socket) =
    close_events uws s.calls (live s.websocket_clients)
    ++ event EventType.shutdown (codes "SERVER") (codes "Going Away") ∷ []

abbrev pub emitted : Uws → Action → WebServer → List DeferredEvent
emitted uws (callback c) s = reported_by c
emitted uws (command Command.stop) s = stopped uws s s.listen_socket
emitted uws (command _) s = []

-- The event that a poll takes off the queue, if it takes one.
abbrev taken_by : List DeferredEvent → Option (Option EventBuffer × WebServer) → List DeferredEvent
taken_by old none = []
taken_by old (some (b, t)) = take (length old - length t.deferred_events) old

abbrev pub delivered : Action → WebServer → List DeferredEvent
delivered (command (Command.get_next_event b)) s =
    taken_by s.deferred_events (get_next_deferred_event b s)
delivered _ s = []

handle-queue :
    (c : Callback) (s : WebServer)
    → (handle c s).deferred_events ≡ s.deferred_events ++ reported_by c
unfolding handle enqueue ask
handle-queue (Callback.listening port text none) s =
    unfold on_listen in sym (append-nil s.deferred_events)
handle-queue (Callback.listening port text (some socket)) s = unfold on_listen in refl
handle-queue (Callback.upgrading uuid response) s =
    unfold on_upgrade in sym (append-nil s.deferred_events)
handle-queue (Callback.opened w) s = unfold on_websocket_open in refl
handle-queue (Callback.closed w code message) s = unfold on_websocket_close in refl
handle-queue (Callback.received w message op_code) s = unfold on_websocket_message in ground arith
handle-queue (Callback.requested uuid response request route) s =
    unfold route_handler in ground arith
handle-queue (Callback.chunk id text true) s = unfold on_data in refl
handle-queue (Callback.chunk id text false) s = unfold on_data in refl
handle-queue (Callback.writable id offset) s = unfold on_connection_writable in refl
handle-queue (Callback.aborted id) s = unfold on_connection_aborted in refl

-- What one action does to the queue: `delivered` comes off the front and `emitted` joins the back.
abbrev Balanced : Uws → Action → WebServer → Type 0
Balanced uws a s =
    s.deferred_events ++ emitted uws a s ≡ delivered a s ++ (step uws a s).deferred_events

kept : (old now : List DeferredEvent) → now ≡ old → old ++ [] ≡ now
kept old now e = append-nil old ∙ sym e

head_taken :
    (e : DeferredEvent) (rest : List DeferredEvent)
    → take (length (e ∷ rest) - length rest) (e ∷ rest) ≡ e ∷ []
head_taken e rest = let n : length (e ∷ rest) - length rest ≡ 1 = omega arith in rw n

none_taken : (xs : List DeferredEvent) → take (length xs - length xs) xs ≡ []
none_taken xs = let n : length xs - length xs ≡ 0 = omega arith in rw n

poll-queue :
    (uws : Uws) (b : Option EventBuffer) (s : WebServer)
    → Balanced uws (command (Command.get_next_event b)) s
unfolding step execute
poll-queue uws b s = elim (Option-cases (get_next_deferred_event b s)) [
  | inl e ↦ rw (e, step, execute) (append-nil s.deferred_events)
  | inr ((b', t), e) ↦ elim (get_next_deferred_event-rest b b' s t e).2 [
    | inl same ↦ rw (e, step, execute, same, none_taken) (append-nil s.deferred_events)
    | inr (x, split) ↦ rw (e, step, execute, split, head_taken, append-nil)
  ]
]

stop-queue : (uws : Uws) (s : WebServer) → WellFormed s → Balanced uws (command Command.stop) s
unfolding step execute
stop-queue uws s w = elim (Option-cases s.listen_socket) [
  | inl e ↦
      ap (λ o. s.deferred_events ++ stopped uws s o) e
      ∙ kept s.deferred_events (stop_listening uws s).deferred_events
          (unfold stop_listening ask in ground arith)
  | inr (socket, e) ↦
      ap (λ o. s.deferred_events ++ stopped uws s o) e
      ∙ sym (append_assoc s.deferred_events (close_events uws s.calls (live s.websocket_clients)) _)
      ∙ sym (ap (λ t. t.deferred_events) (stop_listening_lem uws s socket w e))
]

execute-queue :
    (uws : Uws) (c : Command) (s : WebServer) → WellFormed s → Balanced uws (command c) s
unfolding step execute
execute-queue uws (Command.listen port) s w = kept _ _ (unfold start_listening ask in refl)
execute-queue uws (Command.get_next_event b) s w = poll-queue uws b s
execute-queue uws Command.stop s w = stop-queue uws s w
execute-queue uws Command.purge_connections s w = kept _ _ (unfold purge_faded_clients in refl)
execute-queue uws Command.dump_events s w =
    kept _ _ (ap (λ r. r.1.deferred_events) (dump_deferred_events_lem s))
execute-queue uws (Command.set_echo enabled_flag) s w = kept _ _ (unfold set_echo_mode in refl)
execute-queue uws (Command.broadcast_text text) s w =
    kept _ _ (ap (λ r. r.1.deferred_events) (broadcast_lem uws text s).0)
execute-queue uws (Command.broadcast_binary text) s w =
    kept _ _ (ap (λ r. r.1.deferred_events) (broadcast_lem uws text s).1)
execute-queue uws (Command.broadcast_compressed text) s w =
    kept _ _ (ap (λ r. r.1.deferred_events) (broadcast_lem uws text s).2)
execute-queue uws (Command.send_text text id) s w =
    kept _ _ (unfold send_text_message_to_client ask in ground arith)
execute-queue uws (Command.send_binary text id) s w =
    kept _ _ (unfold send_binary_message_to_client ask in ground arith)
execute-queue uws (Command.send_compressed text id) s w =
    kept _ _ (unfold send_compressed_text_message_to_client ask in ground arith)
execute-queue uws (Command.response_write id text) s w =
    kept _ _ (unfold write_response ask in ground arith)
execute-queue uws (Command.response_end id text) s w =
    kept _ _ (unfold end_response ask in ground arith)
execute-queue uws (Command.response_try_end id text) s w =
    kept _ _ (unfold try_end_response ask in ground arith)
execute-queue uws (Command.response_status id text) s w =
    kept _ _ (unfold write_response_status ask in ground arith)
execute-queue uws (Command.response_header id key value) s w =
    kept _ _ (unfold write_response_header ask in ground arith)
execute-queue uws (Command.websocket_route route) s w =
    kept _ _ (unfold add_websocket_route ask in refl)
execute-queue uws (Command.http_route method route) s w = kept _ _ (unfold add_route ask in refl)

pub step-queue : (uws : Uws) (a : Action) (s : WebServer) → WellFormed s → Balanced uws a s
unfolding step
step-queue uws (callback c) s w = sym (handle-queue c s)
step-queue uws (command c) s w = execute-queue uws c s w

-- The events of a whole history, in the order in which they arise, and those that polls took.
abbrev pub all_emitted : Uws → List Action → WebServer → List DeferredEvent
all_emitted uws [] s = []
all_emitted uws (a ∷ rest) s = emitted uws a s ++ all_emitted uws rest (step uws a s)

abbrev pub all_delivered : Uws → List Action → WebServer → List DeferredEvent
all_delivered uws [] s = []
all_delivered uws (a ∷ rest) s = delivered a s ++ all_delivered uws rest (step uws a s)

-- Over any history the events that were queued at its start, followed by those that its actions
-- gave rise to, are the events that polls took off, followed by those still queued: none is lost,
-- made up or reordered.
pub run-queue :
    (uws : Uws) (actions : List Action) (s : WebServer)
    → WellFormed s
    → s.deferred_events ++ all_emitted uws actions s
      ≡ all_delivered uws actions s ++ (run uws actions s).deferred_events
unfolding run
run-queue uws [] s w = append-nil s.deferred_events
run-queue uws (a ∷ rest) s w =
    sym (append_assoc s.deferred_events (emitted uws a s) _)
    ∙ ap (λ l. l ++ all_emitted uws rest (step uws a s)) (step-queue uws a s w)
    ∙ append_assoc (delivered a s) (step uws a s).deferred_events _
    ∙ ap (λ l. delivered a s ++ l) (run-queue uws rest (step uws a s) (step-WellFormed uws a s w))
    ∙ sym (append_assoc (delivered a s) _ _)

-- ===== src/WebServer/Histories.antt =====
-- Facts of every history of a server: any callbacks of uws and any calls from Lua, in any order.
use evo_runtime.Common.{ℕ, refl, Option, List, [], ◌∷◌, arith, Option-cases, inl, inr}
use evo_runtime.Common.Bytes.{Bytes}
use evo_runtime.WebServer.State.{Uws, WebServer, ask, new_server}
use evo_runtime.WebServer.Messaging.{
  write_response, write_response_status, write_response_header, broadcast_text_message,
  broadcast_binary_message, broadcast_compressed_text_message,
}
use evo_runtime.WebServer.Events.{EventBuffer, get_next_deferred_event, dump_deferred_events}
use evo_runtime.WebServer.Lifecycle.{
  start_listening, stop_listening, add_websocket_route, add_route, set_echo_mode,
}
use evo_runtime.WebServer.Steps.{Command, Action, callback, command, execute, step, run}
use evo_runtime.WebServer.Broadcast.{broadcast_lem}
use evo_runtime.WebServer.Invariant.{
  WellFormed, SameMaps, WellFormed-SameMaps, handle-WellFormed, send_text-WellFormed,
  send_binary-WellFormed, send_compressed-WellFormed, end_response-WellFormed,
  try_end_response-WellFormed, purge-WellFormed,
}
use evo_runtime.WebServer.Delivery.{get_next_deferred_event-rest}
use evo_runtime.WebServer.Shutdown.{stop_listening_lem}

stop-WellFormed : (uws : Uws) (s : WebServer) → WellFormed s → WellFormed (stop_listening uws s)
stop-WellFormed uws s w = elim (Option-cases s.listen_socket) [
  | inl e ↦ WellFormed-SameMaps s _ (unfold stop_listening ask in ground arith) w
  | inr (socket, e) ↦
      rw (stop_listening_lem uws s socket w e) (record { clients = tt; owners = tt; requests = tt })
]

poll-SameMaps :
    (uws : Uws) (b : Option EventBuffer) (s : WebServer)
    → SameMaps s (execute uws (Command.get_next_event b) s)
unfolding execute
poll-SameMaps uws b s = elim (Option-cases (get_next_deferred_event b s)) [
  | inl e ↦ rw (e, execute) (refl, refl)
  | inr ((b', t), e) ↦
      let rest = get_next_deferred_event-rest b b' s t e in rw (e, execute) (rest.0, rest.1)
]

-- The three broadcasts.
broadcast-SameMaps :
    (uws : Uws) (text : Bytes) (s : WebServer)
    → SameMaps s (broadcast_text_message uws text s).1
      × SameMaps s (broadcast_binary_message uws text s).1
      × SameMaps s (broadcast_compressed_text_message uws text s).1
broadcast-SameMaps uws text s =
    let (a, b, c) = broadcast_lem uws text s in
    (rw a (refl, refl), rw b (refl, refl), rw c (refl, refl))

execute-WellFormed :
    (uws : Uws) (c : Command) (s : WebServer) → WellFormed s → WellFormed (execute uws c s)
unfolding execute
execute-WellFormed uws (Command.listen port) s w =
    WellFormed-SameMaps s _ (unfold start_listening ask in (refl, refl)) w
execute-WellFormed uws (Command.get_next_event b) s w =
    WellFormed-SameMaps s _ (poll-SameMaps uws b s) w
execute-WellFormed uws Command.stop s w = stop-WellFormed uws s w
execute-WellFormed uws Command.purge_connections s w = purge-WellFormed s w
execute-WellFormed uws Command.dump_events s w =
    WellFormed-SameMaps s _ (unfold dump_deferred_events in (refl, refl)) w
execute-WellFormed uws (Command.set_echo enabled_flag) s w =
    WellFormed-SameMaps s _ (unfold set_echo_mode in (refl, refl)) w
execute-WellFormed uws (Command.broadcast_text text) s w =
    WellFormed-SameMaps s _ (broadcast-SameMaps uws text s).0 w
execute-WellFormed uws (Command.broadcast_binary text) s w =
    WellFormed-SameMaps s _ (broadcast-SameMaps uws text s).1 w
execute-WellFormed uws (Command.broadcast_compressed text) s w =
    WellFormed-SameMaps s _ (broadcast-SameMaps uws text s).2 w
execute-WellFormed uws (Command.send_text text id) s w = send_text-WellFormed uws text id s w
execute-WellFormed uws (Command.send_binary text id) s w = send_binary-WellFormed uws text id s w
execute-WellFormed uws (Command.send_compressed text id) s w =
    send_compressed-WellFormed uws text id s w
execute-WellFormed uws (Command.response_write id text) s w =
    WellFormed-SameMaps s _ (unfold write_response ask in ground arith) w
execute-WellFormed uws (Command.response_end id text) s w = end_response-WellFormed uws id text s w
execute-WellFormed uws (Command.response_try_end id text) s w =
    try_end_response-WellFormed uws id text s w
execute-WellFormed uws (Command.response_status id text) s w =
    WellFormed-SameMaps s _ (unfold write_response_status ask in ground arith) w
execute-WellFormed uws (Command.response_header id key value) s w =
    WellFormed-SameMaps s _ (unfold write_response_header ask in ground arith) w
execute-WellFormed uws (Command.websocket_route route) s w =
    WellFormed-SameMaps s _ (unfold add_websocket_route ask in (refl, refl)) w
execute-WellFormed uws (Command.http_route method route) s w =
    WellFormed-SameMaps s _ (unfold add_route ask in (refl, refl)) w

pub step-WellFormed :
    (uws : Uws) (a : Action) (s : WebServer) → WellFormed s → WellFormed (step uws a s)
unfolding step
step-WellFormed uws (callback c) s w = handle-WellFormed c s w
step-WellFormed uws (command c) s w = execute-WellFormed uws c s w

pub run-WellFormed :
    (uws : Uws) (actions : List Action) (s : WebServer)
    → WellFormed s
    → WellFormed (run uws actions s)
unfolding run
run-WellFormed uws [] s w = w
run-WellFormed uws (a ∷ rest) s w =
    run-WellFormed uws rest (step uws a s) (step-WellFormed uws a s w)

-- After any history of a new server, no id stands twice in either map of clients, and each live
-- client is found under the id that its socket carries.
pub run-new_server-WellFormed :
    (uws : Uws) (shared_compressor : ℕ) (actions : List Action)
    → WellFormed (run uws actions (new_server shared_compressor))
unfolding new_server
run-new_server-WellFormed uws shared_compressor actions =
    run-WellFormed uws actions (new_server shared_compressor)
      (record { clients = tt; owners = tt; requests = tt })

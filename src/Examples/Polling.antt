-- ===== src/Examples/Polling.antt =====
-- The theorems on the view of a server and on polling it, at the server of `Server`.
use evo_runtime.Common.{◌≡◌, refl, false, true, some, List, [], ◌∷◌, arith, take}
use evo_runtime.Common.Bytes.{codes, key_eq}
use evo_runtime.Common.Map.{find}
use evo_runtime.WebServer.Status.{OpCode}
use evo_runtime.WebServer.State.{WebServer}
use evo_runtime.WebServer.Connections.{find_client_by_id}
use evo_runtime.WebServer.Messaging.{send_to}
use evo_runtime.WebServer.Events.{EventBuffer}
use evo_runtime.WebServer.Steps.{run}
use evo_runtime.WebServer.View.{view, Chronicle}
use evo_runtime.WebServer.Refinement.{run_refines}
use evo_runtime.WebServer.Draining.{Adequate, Seen, drain, drain_lem}
use evo_runtime.WebServer.Exports.{
  uws_webserver_get_next_event, uws_webserver_send_text, uws_webserver_send_binary,
  uws_webserver_send_compressed,
}
use evo_runtime.WebServer.Replies.{send_after_poll}
use evo_runtime.Examples.Server.{
  uws, server, server-WellFormed, history, buffer, five_bytes, oldest, first_client,
}

run_refines_example : Chronicle history (view server) (view (run uws history server))
run_refines_example = run_refines uws history server server-WellFormed

buffer-Adequate : Adequate buffer server
buffer-Adequate = record {
  memory = five_bytes;
  allocated = refl;
  id_size = refl;
  positive = omega arith;
  small = omega arith;
  room = omega arith;
}

drain_lem_example :
    (seen : List EventBuffer) × (t : WebServer) × (drain 2 buffer server ≡ some (seen, t))
    × (t.deferred_events ≡ [])
    × Seen 4 (oldest ∷ []) seen
drain_lem_example = drain_lem (oldest ∷ []) 2 buffer server refl (omega arith) buffer-Adequate

found : find_client_by_id (codes "a") server ≡ some first_client
unfolding find_client_by_id find key_eq
found = refl

send_after_poll_example :
    (filled : EventBuffer) × (t : WebServer) × (uws_webserver_get_next_event (some buffer) server
      ≡ some (some filled, t))
    × (uws_webserver_send_text uws (codes "hello") 4 filled.client_id t
        ≡ send_to uws first_client (take 4 (codes "hello")) OpCode.text false t)
    × (uws_webserver_send_binary uws (codes "hello") 4 filled.client_id t
        ≡ send_to uws first_client (take 4 (codes "hello")) OpCode.binary false t)
    × (uws_webserver_send_compressed uws (codes "hello") 4 filled.client_id t
        ≡ send_to uws first_client (take 4 (codes "hello")) OpCode.text true t)
send_after_poll_example =
    send_after_poll uws server buffer oldest [] first_client (codes "hello") 4 refl buffer-Adequate
      found ((λ h. ground arith), tt) (omega arith)

-- ===== src/WebServer/Replies.antt =====
-- The way of an event to Lua and of the answer back: the id that a poll leaves in Lua's buffer is
-- the id by which Lua reaches the same client, and the event's name tells its type.
use evo_runtime.Common.{
  ℕ, ◌≤◌, ◌≡◌, refl, ap, sym, ◌∙◌, true, false, some, List, [], ◌∷◌, if◌then◌else◌, length, take,
  arith,
}
use evo_runtime.Common.Bytes.{Bytes, NoNul, c_string, c_string_id, key_eq}
use evo_runtime.WebServer.Status.{EventType, event_code, OpCode}
use evo_runtime.WebServer.State.{DeferredEvent, WebSocket, Uws, WebServer}
use evo_runtime.WebServer.Connections.{find_client_by_id}
use evo_runtime.WebServer.Messaging.{
  send_to, send_text_message_to_client, send_binary_message_to_client,
  send_compressed_text_message_to_client,
}
use evo_runtime.WebServer.Events.{EventBuffer}
use evo_runtime.WebServer.Delivery.{get_next_deferred_event-rest, get_next_deferred_event_lem}
use evo_runtime.WebServer.Draining.{Adequate}
use evo_runtime.WebServer.Exports.{
  uws_webserver_get_next_event, uws_webserver_send_text, uws_webserver_send_binary,
  uws_webserver_send_compressed, uws_event_name,
}

-- The type that a name stands for.
abbrev named_in : List EventType → Bytes → EventType
named_in [] name = EventType.invalid
named_in (t ∷ rest) name =
    if key_eq (uws_event_name (event_code t)) name then t else named_in rest name

abbrev all_types : List EventType
all_types =
    EventType.opening ∷ EventType.message ∷ EventType.close ∷ EventType.listen ∷ EventType.shutdown
    ∷ EventType.http_start ∷ EventType.http_data ∷ EventType.http_end ∷ EventType.http_abort
    ∷ EventType.http_writable ∷ []

named_in-uws_event_name : (t : EventType) → named_in all_types (uws_event_name (event_code t)) ≡ t
unfolding uws_event_name event_code key_eq
named_in-uws_event_name EventType.invalid = refl
named_in-uws_event_name EventType.opening = refl
named_in-uws_event_name EventType.message = refl
named_in-uws_event_name EventType.close = refl
named_in-uws_event_name EventType.listen = refl
named_in-uws_event_name EventType.shutdown = refl
named_in-uws_event_name EventType.http_start = refl
named_in-uws_event_name EventType.http_data = refl
named_in-uws_event_name EventType.http_end = refl
named_in-uws_event_name EventType.http_abort = refl
named_in-uws_event_name EventType.http_writable = refl

-- Two types of events that have the same name are the same type.
pub uws_event_name-eq :
    (a b : EventType) → uws_event_name (event_code a) ≡ uws_event_name (event_code b) → a ≡ b
uws_event_name-eq a b h =
    sym (named_in-uws_event_name a) ∙ (ap (named_in all_types) h ∙ named_in-uws_event_name b)

take_all : (n : ℕ) (x : Bytes) → length x ≤ n → take n x ≡ x
take_all ℕ.zero [] h = refl
take_all ℕ.zero (a ∷ x) h = absurd (omega (arith, h))
take_all (ℕ.suc n) [] h = refl
take_all (ℕ.suc n) (a ∷ x) h = ap (λ y. a ∷ y) (take_all n x (omega (arith, h)))

same_client :
    (id : Bytes) (s t : WebServer)
    → t.websocket_clients ≡ s.websocket_clients
    → find_client_by_id id t ≡ find_client_by_id id s
unfolding find_client_by_id
same_client id s t e = rw e refl

-- Where the oldest event is of a connected client whose id has at most 36 bytes, a poll with a
-- buffer that is large enough leaves in it an id with which each of the three functions that send
-- to one client uses that client's socket.
pub send_after_poll :
    (uws : Uws) (s : WebServer) (b : EventBuffer) (e : DeferredEvent) (rest : List DeferredEvent)
    (w : WebSocket) (text : Bytes) (size : ℕ)
    → s.deferred_events ≡ e ∷ rest
    → Adequate b s
    → find_client_by_id e.client_id s ≡ some w
    → NoNul e.client_id
    → length e.client_id ≤ 36
    → (filled : EventBuffer) × (t : WebServer) × (uws_webserver_get_next_event (some b) s
        ≡ some (some filled, t))
      × (uws_webserver_send_text uws text size filled.client_id t
          ≡ send_to uws w (take size text) OpCode.text false t)
      × (uws_webserver_send_binary uws text size filled.client_id t
          ≡ send_to uws w (take size text) OpCode.binary false t)
      × (uws_webserver_send_compressed uws text size filled.client_id t
          ≡ send_to uws w (take size text) OpCode.text true t)
unfolding uws_webserver_get_next_event uws_webserver_send_text uws_webserver_send_binary
    uws_webserver_send_compressed send_text_message_to_client send_binary_message_to_client
    send_compressed_text_message_to_client
send_after_poll uws s b e rest w text size queued a connected clean short =
    let (filled, t, ok, _, d) =
      get_next_deferred_event_lem s b e rest a.memory queued a.allocated a.id_size a.positive
        a.small a.room in
    let id : c_string filled.client_id ≡ e.client_id =
      d.client_id
      ∙ (ap (take 36) (c_string_id e.client_id clean) ∙ take_all 36 e.client_id short) in
    let still : find_client_by_id (c_string filled.client_id) t ≡ some w =
      ap (λ i. find_client_by_id i t) id
      ∙ (same_client e.client_id s t (get_next_deferred_event-rest (some b) (some filled) s t ok).0
          ∙ connected) in
    (
      filled,
      t,
      ok,
      rw (still, send_text_message_to_client) refl,
      rw (still, send_binary_message_to_client) refl,
      rw (still, send_compressed_text_message_to_client) refl,
    )

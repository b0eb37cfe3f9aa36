-- ===== src/WebServer/Events.antt =====
-- WebServer.cpp, asynchronous polling: the queue of deferred events and its way to Lua.
use evo_runtime.Common.{
  ℕ, Bool, true, false, Option, none, some, List, [], ◌∷◌, ◌++◌, if◌then◌else◌, ltb, length, min,
}
use evo_runtime.Common.Bytes.{Bytes, pred_size, strncpy, memcpy, store, ◌>>=◌}
use evo_runtime.WebServer.Status.{event_code}
use evo_runtime.WebServer.State.{DeferredEvent, Complaint, UwsCall, WebServer, ask}

-- `uws_webserver_event_t`, which the caller allocates. A null payload is `none`.
pub record EventBuffer : Type 0 where
  pub type : ℕ
  pub client_id : Bytes
  pub payload : Option Bytes
  pub payload_size : ℕ

-- `sizeof(preallocatedEventBuffer->clientID)`
abbrev pub client_id_size : ℕ
client_id_size = 37

unfoldable pub get_num_deferred_events : WebServer → ℕ
get_num_deferred_events s = length s.deferred_events

unfoldable pub has_deferred_events : WebServer → Bool
has_deferred_events s = elim s.deferred_events [ [] ↦ false | _ ∷ _ ↦ true ]

-- `std::min(m_maxPayloadSize - 1, event.payload.size())`
unfoldable pub payload_length : DeferredEvent → WebServer → ℕ
payload_length e s = min (pred_size s.settings.max_payload_size) (length e.payload)

-- `strncpy(clientID, ..., sizeof(clientID)); clientID[sizeof(clientID) - 1] = '\0';`
unfoldable pub copy_client_id : Bytes → Bytes → Option Bytes
copy_client_id memory id = do
  copied ← strncpy memory id client_id_size
  store copied (pred_size client_id_size) 0

-- `memcpy(payload, ..., payloadLength); payload[payloadLength] = '\0';`
unfoldable pub copy_payload : Bytes → Bytes → ℕ → Option Bytes
copy_payload memory text size = do written ← memcpy memory text size; store written size 0

-- The writes to the caller's memory: type, id, payload and its size.
unfoldable pub fill_event_buffer :
    DeferredEvent → Bytes → EventBuffer → WebServer → Option EventBuffer
fill_event_buffer e memory b s = do
  id ← copy_client_id b.client_id e.client_id
  ended ← copy_payload memory e.payload (payload_length e s)
  some (record {
    type = event_code e.type;
    client_id = id;
    payload = some ended;
    payload_size = payload_length e s;
  })

-- The warning about a cut payload.
abbrev pub warn_truncated : DeferredEvent → WebServer → WebServer
warn_truncated e s =
    if ltb (payload_length e s) (length e.payload)
    then ask (UwsCall.complains Complaint.payload_truncated) s
    else s

-- The result is `none` where a write would leave the caller's memory.
unfoldable pub get_next_deferred_event :
    Option EventBuffer → WebServer → Option (Option EventBuffer × WebServer)
get_next_deferred_event none s =
    some (none, ask (UwsCall.complains Complaint.missing_event_buffer) s)
get_next_deferred_event (some b) s = elim b.payload [
  | none ↦ some (some b, ask (UwsCall.complains Complaint.uninitialized_payload) s)
  | some memory ↦ elim s.deferred_events [
    | [] ↦ some (some b, ask (UwsCall.complains Complaint.queue_is_empty) s)
    | e ∷ rest ↦ elim (fill_event_buffer e memory b s) [
      | none ↦ none
      | some filled ↦ some (some filled, record (warn_truncated e s) { deferred_events = rest })
    ]
  ]
]

-- The loop of DumpDeferredEvents: the queue, the temporary queue and what has been printed.
unfoldable pub dump_each :
    List DeferredEvent
    → List DeferredEvent
    → List DeferredEvent
    → List DeferredEvent × List DeferredEvent
dump_each [] temp printed = (temp, printed)
dump_each (e ∷ rest) temp printed = dump_each rest (temp ++ e ∷ []) (printed ++ e ∷ [])

-- What is printed, the size first, and the server afterwards.
unfoldable pub dump_deferred_events : WebServer → (ℕ × List DeferredEvent) × WebServer
unfolding dump_each
dump_deferred_events s =
    let (temp, printed) = dump_each s.deferred_events [] [] in
    ((length s.deferred_events, printed), record s { deferred_events = temp })

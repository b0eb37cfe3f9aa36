-- ===== src/WebServer/Delivery.antt =====
-- GetNextDeferredEvent and the queue behind it: what reaches the caller's buffer, and that no event
-- is lost, repeated or reordered on the way.
use evo_runtime.Common.{
  ℕ, ◌+◌, ◌-◌, ◌^◌, ◌≤◌, ◌<◌, ◌≡◌, refl, ◌∙◌, ◌⊎◌, Option, none, some, List, [], ◌∷◌, ◌++◌,
  append-nil, append_assoc, arith, length, take, min,
}
use evo_runtime.Common.Bytes.{Bytes, c_string}
use evo_runtime.Common.Copies.{strncpy_whole, memcpy_room}
use evo_runtime.WebServer.Status.{event_code}
use evo_runtime.WebServer.State.{DeferredEvent, WebServer, ask}
use evo_runtime.WebServer.Events.{
  EventBuffer, client_id_size, payload_length, copy_client_id, copy_payload, fill_event_buffer,
  get_next_deferred_event, dump_each, dump_deferred_events, get_num_deferred_events, warn_truncated,
}

-- A poll that returns changes neither map of clients, and takes at most the first event.
pub get_next_deferred_event-rest :
    (b b' : Option EventBuffer) (s t : WebServer)
    → get_next_deferred_event b s ≡ some (b', t)
    → (t.websocket_clients ≡ s.websocket_clients)
      × (t.http_clients ≡ s.http_clients)
      × ((t.deferred_events ≡ s.deferred_events)
          ⊎ ((e : DeferredEvent) × (s.deferred_events ≡ e ∷ t.deferred_events)))
unfolding get_next_deferred_event ask
get_next_deferred_event-rest none b' s t h = ground arith
get_next_deferred_event-rest (some b) b' s t h = ground arith

dump_each_lem :
    (events temp printed : List DeferredEvent)
    → dump_each events temp printed ≡ (temp ++ events, printed ++ events)
unfolding dump_each
dump_each_lem [] temp printed = rw (append-nil temp, append-nil printed)
dump_each_lem (e ∷ rest) temp printed =
    dump_each_lem rest (temp ++ e ∷ []) (printed ++ e ∷ []) ∙ simp append_assoc

-- Dumping the queue prints its size and all its events in order, and leaves the server as it was.
pub dump_deferred_events_lem :
    (s : WebServer) → dump_deferred_events s ≡ ((get_num_deferred_events s, s.deferred_events), s)
unfolding dump_deferred_events get_num_deferred_events
dump_deferred_events_lem s = rw (dump_each_lem s.deferred_events [] [])

-- What a delivered event looks like to the caller: the type's number, the id cut to 36 bytes in a
-- field of the same size, and the first `size` bytes of the payload in the same buffer, with `size`
-- beside it.
pub record Delivered (e : DeferredEvent) (size : ℕ) (memory : Bytes) (b : EventBuffer)
    : Type 0 where
  pub type : b.type ≡ event_code e.type
  pub client_id : c_string b.client_id ≡ take 36 (c_string e.client_id)
  pub id_size : length b.client_id ≡ client_id_size
  pub payload_size : b.payload_size ≡ size
  pub payload :
      (written : Bytes) × (b.payload ≡ some written)
      × (take size written ≡ take size e.payload)
      × (length written ≡ length memory)

fill_event_buffer_lem :
    (e : DeferredEvent) (memory : Bytes) (b : EventBuffer) (s : WebServer)
    → length b.client_id ≡ client_id_size
    → payload_length e s < length memory
    → payload_length e s ≤ length e.payload
    → (filled : EventBuffer) × (fill_event_buffer e memory b s ≡ some filled)
      × Delivered e (payload_length e s) memory filled
unfolding fill_event_buffer
fill_event_buffer_lem e memory b s h room fits =
    let (id, id_ok, id_text, id_size) = strncpy_whole 36 b.client_id e.client_id h in
    let (text, text_ok, text_same, text_length) =
      memcpy_room (payload_length e s) memory e.payload room fits in
    let id_copied : copy_client_id b.client_id e.client_id ≡ some id =
      unfold copy_client_id in id_ok in
    let text_copied : copy_payload memory e.payload (payload_length e s) ≡ some text =
      unfold copy_payload in text_ok in
    (
      record {
        type = event_code e.type;
        client_id = id;
        payload = some text;
        payload_size = payload_length e s;
      },
      rw (id_copied, text_copied),
      record {
        type = refl;
        client_id = id_text;
        id_size = id_size;
        payload_size = refl;
        payload = (text, refl, text_same, text_length);
      },
    )

payload_length_lem :
    (e : DeferredEvent) (s : WebServer)
    → 0 < s.settings.max_payload_size
    → s.settings.max_payload_size < 2 ^ 64
    → payload_length e s ≡ min (s.settings.max_payload_size - 1) (length e.payload)
unfolding payload_length
payload_length_lem e s positive small = omega arith

module _ (s : WebServer) (b : EventBuffer) (e : DeferredEvent) (rest : List DeferredEvent) where
  -- A poll takes the oldest event off the queue and writes it into the caller's buffer: with a
  -- server limit from one byte to below 2^64, an id field of its size, and a payload with room for
  -- as many bytes as the limit, no write leaves the caller's memory; the caller gets the number of
  -- the event's type, the first 36 bytes of the id's text, and the first bytes of the payload, at
  -- most one fewer than the limit, with their number beside them. A payload of exactly the limit
  -- therefore loses its last byte.
  pub get_next_deferred_event_lem :
      (memory : Bytes)
      → s.deferred_events ≡ e ∷ rest
      → b.payload ≡ some memory
      → length b.client_id ≡ client_id_size
      → 0 < s.settings.max_payload_size
      → s.settings.max_payload_size < 2 ^ 64
      → s.settings.max_payload_size ≤ length memory
      → (filled : EventBuffer) × (t : WebServer) × (get_next_deferred_event (some b) s
          ≡ some (some filled, t))
        × (t.deferred_events ≡ rest)
        × Delivered e (min (s.settings.max_payload_size - 1) (length e.payload)) memory filled
  unfolding get_next_deferred_event
  get_next_deferred_event_lem memory queued allocated id_size positive small room =
      let length_known = payload_length_lem e s positive small in
      let (filled, ok, delivered) =
        fill_event_buffer_lem e memory b s id_size (omega (arith, length_known))
          (omega (arith, length_known)) in
      (
        filled,
        record (warn_truncated e s) { deferred_events = rest },
        ground (arith, ok),
        refl,
        rw length_known at delivered,
      )

-- A payload of exactly the server's limit loses its last byte, although the caller's buffer has
-- room for all of it and a terminator.
pub payload_of_max_size_is_cut :
    (s t : WebServer) (b filled : EventBuffer) (e : DeferredEvent) (rest : List DeferredEvent)
    (memory : Bytes)
    → s.deferred_events ≡ e ∷ rest
    → b.payload ≡ some memory
    → length b.client_id ≡ client_id_size
    → 0 < s.settings.max_payload_size
    → s.settings.max_payload_size < 2 ^ 64
    → s.settings.max_payload_size < length memory
    → length e.payload ≡ s.settings.max_payload_size
    → get_next_deferred_event (some b) s ≡ some (some filled, t)
    → filled.payload_size + 1 ≡ length e.payload
payload_of_max_size_is_cut s t b filled e rest memory queued allocated id_size positive small room
      full returned =
    let (filled', t', returned', _, delivered) =
      get_next_deferred_event_lem s b e rest memory queued allocated id_size positive small
        (omega arith) in
    let same : filled.payload_size ≡ filled'.payload_size = cc in
    omega (arith, same, delivered.payload_size)

-- ===== src/WebServer/Draining.antt =====
-- Runtime/API/Networking/HttpServer.lua polls in a loop while `uws_webserver_has_event` holds, and
-- passes the same buffer each time: the loop ends, and has then handed on every event. The handlers
-- that the loop calls with each event, which may call the server again, are left out.
use evo_runtime.Common.{
  ℕ, zero, suc, ◌-◌, ◌^◌, ◌≤◌, ◌<◌, ◌≡◌, refl, true, Option, none, some, List, [], ◌∷◌, arith,
  length, min, if◌then◌else◌,
}
use evo_runtime.Common.Bytes.{Bytes}
use evo_runtime.WebServer.State.{DeferredEvent, WebServer, ask}
use evo_runtime.WebServer.Events.{
  EventBuffer, client_id_size, get_next_deferred_event, has_deferred_events,
}
use evo_runtime.WebServer.Delivery.{Delivered, get_next_deferred_event_lem}

-- The loop, with at most `fuel` polls: what each poll left in the buffer, and the server
-- afterwards.
unfoldable pub drain : ℕ → EventBuffer → WebServer → Option (List EventBuffer × WebServer)
unfolding has_deferred_events
drain zero b s = none
drain (suc fuel) b s =
    let polled : Option (List EventBuffer × WebServer) = elim (get_next_deferred_event (some b) s) [
      | some (some filled, t) ↦ elim (drain fuel filled t) [
        | none ↦ none
        | some (rest, last) ↦ some (filled ∷ rest, last)
      ]
      | _ ↦ none
    ] in
    if has_deferred_events s then polled else some ([], s)

-- A buffer as `uws_webserver_event_t` has it, with room for the largest payload.
pub record Adequate (b : EventBuffer) (s : WebServer) : Type 0 where
  pub memory : Bytes
  pub allocated : b.payload ≡ some memory
  pub id_size : length b.client_id ≡ client_id_size
  pub positive : 0 < s.settings.max_payload_size
  pub small : s.settings.max_payload_size < 2 ^ 64
  pub room : s.settings.max_payload_size ≤ length memory

-- What the caller has seen is the events, in their order.
abbrev pub Seen : ℕ → List DeferredEvent → List EventBuffer → Type 0
Seen limit [] [] = Unit
Seen limit [] (b ∷ bs) = ⊥
Seen limit (e ∷ es) [] = ⊥
Seen limit (e ∷ es) (b ∷ bs) =
    ((memory : Bytes) × Delivered e (min (limit - 1) (length e.payload)) memory b)
    × Seen limit es bs

-- A poll that fills the buffer leaves it as large as it was, and the settings alone.
poll-sizes :
    (b filled : EventBuffer) (s t : WebServer)
    → get_next_deferred_event (some b) s ≡ some (some filled, t)
    → t.settings ≡ s.settings
unfolding get_next_deferred_event ask
poll-sizes b filled s t h = ground arith

poll-Adequate :
    (b filled : EventBuffer) (s t : WebServer) (e : DeferredEvent) (size : ℕ)
    → (a : Adequate b s) → t.settings ≡ s.settings
    → Delivered e size a.memory filled
    → Adequate filled t
poll-Adequate b filled s t e size a same d =
    let (written, is_payload, _, long) = d.payload in
    record {
      memory = written;
      allocated = is_payload;
      id_size = d.id_size;
      positive = rw same a.positive;
      small = rw same a.small;
      room = rw (same, long) a.room;
    }

drain_step :
    (fuel : ℕ) (b filled : EventBuffer) (s t : WebServer) (e : DeferredEvent)
    (events : List DeferredEvent) {seen : List EventBuffer} {last : WebServer}
    → s.deferred_events ≡ e ∷ events
    → get_next_deferred_event (some b) s ≡ some (some filled, t)
    → drain fuel filled t ≡ some (seen, last)
    → drain (suc fuel) b s ≡ some (filled ∷ seen, last)
unfolding drain
drain_step fuel b filled s t e events queued ok done =
    let waiting : has_deferred_events s ≡ true = unfold has_deferred_events in rw queued refl in
    rw (waiting, ok, done) refl

-- Polling in a loop with a buffer that is large enough ends once every queued event has been taken:
-- no poll faults, the caller sees each event once and in order, and the queue is empty at the end.
pub drain_lem :
    (events : List DeferredEvent) (fuel : ℕ) (b : EventBuffer) (s : WebServer)
    → s.deferred_events ≡ events
    → length events < fuel
    → Adequate b s
    → (seen : List EventBuffer) × (t : WebServer) × (drain fuel b s ≡ some (seen, t))
      × (t.deferred_events ≡ [])
      × Seen s.settings.max_payload_size events seen
unfolding drain
drain_lem events zero b s queued enough a = absurd (omega (arith, enough))
drain_lem [] (suc fuel) b s queued enough a = ([], s, rw (queued, drain) refl, queued, tt)
drain_lem (e ∷ events) (suc fuel) b s queued enough a =
    let (filled, t, ok, rest, d) =
      get_next_deferred_event_lem s b e events a.memory queued a.allocated a.id_size a.positive
        a.small a.room in
    let same : t.settings ≡ s.settings = poll-sizes b filled s t ok in
    let (seen, last, done, empty, all) =
      drain_lem events fuel filled t rest (omega (arith, enough))
        (poll-Adequate b filled s t e _ a same d) in
    (
      filled ∷ seen,
      last,
      drain_step fuel b filled s t e events queued ok done,
      empty,
      ((a.memory, d), rw same at all),
    )

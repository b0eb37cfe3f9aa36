-- ===== src/Interop/Queue.antt =====
-- Runtime/Bindings/FFI/interop/interop_ffi.cpp. A queue is the list of its events, oldest first; a
-- `deferred_event_queue_t` is `none` where it is null. Reading through a null pointer is a fault.
use evo_runtime.Common.{
  ℕ, ◌+◌, ◌≡◌, refl, ap, ◌∙◌, Bool, true, false, Option, none, some, List, [], ◌∷◌, ◌++◌, length,
  length-append, append-nil, append_assoc,
}
use evo_runtime.Interop.Events.{EventType, DeferredEvent, error_details, error_popping_empty_queue}

abbrev pub QueuePointer : Type 0
QueuePointer = Option (List DeferredEvent)

unfoldable pub queue_create : QueuePointer
queue_create = some []

unfoldable pub queue_size : QueuePointer → ℕ
queue_size none = 0
queue_size (some queue) = length queue

unfoldable pub queue_push_event : QueuePointer → DeferredEvent → Bool × QueuePointer
queue_push_event none event = (false, none)
queue_push_event (some queue) event = (true, some (queue ++ event ∷ []))

unfoldable pub empty_queue_error : DeferredEvent
empty_queue_error =
    error_details (record { type = EventType.error_event; code = error_popping_empty_queue })

unfoldable pub queue_pop_event : QueuePointer → Option (DeferredEvent × QueuePointer)
unfolding empty_queue_error
queue_pop_event none = none
queue_pop_event (some []) = some (empty_queue_error, some [])
queue_pop_event (some (event ∷ rest)) = some (event, some rest)

-- The events of a list, pushed one after the other.
abbrev pub push_all : List DeferredEvent → QueuePointer → QueuePointer
push_all [] queue = queue
push_all (event ∷ rest) queue = push_all rest (queue_push_event queue event).1

-- As many pops as `count`, and what they returned.
abbrev pub pop_all : ℕ → QueuePointer → Option (List DeferredEvent × QueuePointer)
pop_all ℕ.zero queue = some ([], queue)
pop_all (ℕ.suc count) queue = elim (queue_pop_event queue) [
  | none ↦ none
  | some (event, rest) ↦ elim (pop_all count rest) [
    | none ↦ none
    | some (events, left) ↦ some (event ∷ events, left)
  ]
]

push_all-append :
    (events queue : List DeferredEvent) → push_all events (some queue) ≡ some (queue ++ events)
unfolding queue_push_event
push_all-append [] queue = rw (append-nil queue)
push_all-append (e ∷ events) queue =
    push_all-append events (queue ++ e ∷ []) ∙ ap some (append_assoc queue (e ∷ []) events)

pop_all-append :
    (events rest : List DeferredEvent)
    → pop_all (length events) (some (events ++ rest)) ≡ some (events, some rest)
unfolding queue_pop_event
pop_all-append [] rest = refl
pop_all-append (e ∷ events) rest = rw (pop_all-append events rest)

-- First in, first out: what was queued before and what is pushed come off in that order, as many
-- as the size says, and the queue is then empty, so that the next pop is the error event.
pub pop_all-push_all :
    (events queue : List DeferredEvent)
    → let filled = push_all events (some queue) in
      (queue_size filled ≡ length queue + length events)
      × (pop_all (queue_size filled) filled ≡ some (queue ++ events, queue_create))
      × (queue_pop_event queue_create ≡ some (empty_queue_error, queue_create))
unfolding queue_size queue_create queue_pop_event
pop_all-push_all events queue =
    rw (push_all-append events queue) (length-append queue events, popped, refl)
  where
    popped :
        pop_all (length (queue ++ events)) (some (queue ++ events))
        ≡ some (queue ++ events, some [])
    popped = rw append-nil at (pop_all-append (queue ++ events) [])

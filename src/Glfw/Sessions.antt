-- ===== src/Glfw/Sessions.antt =====
-- Windows and the queues of interop/interop_ffi.cpp together: what Lua does with both, in any order
-- with the inputs that glfw/glfw_ffi.cpp defers. A queue is an address, whose memory is live from
-- `queue_create` until `queue_destroy`; addresses are not used again.
use evo_runtime.Common.{
  ℕ, suc, ◌+◌, ◌≤◌, ◌<◌, ◌≡◌, refl, sym, ap, ◌∙◌, ◌≢◌, Bool, true, false, Option, none, some, List,
  [], ◌∷◌, ◌++◌, arith, ◌==◌, if◌then◌else◌, Option-cases, Bool-cases, inl, inr, append_assoc,
  append-nil, ==_iff,
}
use evo_runtime.Interop.Events.{DeferredEvent}
use evo_runtime.Interop.Queue.{queue_create, queue_push_event, queue_pop_event}
use evo_runtime.Glfw.Callbacks.{Input, Slot, slot, input_event}
use evo_runtime.Glfw.Windows.{Window, update, register_window, has_callback}
pub mod Safety

pub record Session : Type 0 where
  pub windows : ℕ → Window
  pub queues : ℕ → Option (List DeferredEvent)
  pub next : ℕ

-- What Lua calls, and an input to a window. Null pointers are `none`.
pub data Action : Type 0 where
  create : Action
  destroy : Option ℕ → Action
  push : Option ℕ → DeferredEvent → Action
  pop : Option ℕ → Action
  register : (window queue : Option ℕ) → Action
  input : ℕ → Input → Action

-- The session after a step, and what the step hands to Lua: the event of a pop.
abbrev pub Stepped : Type 0
Stepped = Option (Session × List DeferredEvent)

-- `new std::queue` in `queue_create`.
unfoldable pub create_queue : Session → Session
unfolding queue_create
create_queue s = record s { queues = update s.queues s.next queue_create; next = suc s.next }

-- `delete queue`, which does nothing with a null pointer.
unfoldable pub queue_destroy : Option ℕ → Session → Option Session
queue_destroy none s = some s
queue_destroy (some q) s = elim (s.queues q) [
  | none ↦ none
  | some l ↦ some (record s { queues = update s.queues q none })
]

-- A write to the queue at an address: no live queue there is a fault.
unfoldable pub push_at : ℕ → DeferredEvent → Session → Option Session
unfolding queue_push_event
push_at q event s = elim (s.queues q) [
  | none ↦ none
  | some l ↦ some (record s { queues = update s.queues q (queue_push_event (some l) event).1 })
]

unfoldable pub push_event : Option ℕ → DeferredEvent → Session → Option Session
push_event none event s = some s
push_event (some q) event s = push_at q event s

unfoldable pub pop_event : Option ℕ → Session → Stepped
unfolding queue_pop_event
pop_event none s = none
pop_event (some q) s = elim (s.queues q) [
  | none ↦ none
  | some l ↦ elim (queue_pop_event (some l)) [
    | none ↦ none
    | some (event, rest) ↦ some (record s { queues = update s.queues q rest }, event ∷ [])
  ]
]

unfoldable pub register_events : (window queue : Option ℕ) → Session → Session
register_events none queue s = s
register_events (some window) none s = s
register_events (some window) (some queue) s = record s {
  windows = update s.windows window (register_window queue (s.windows window));
}

unfoldable pub window_input : ℕ → Input → Session → Option Session
window_input window i s =
    if has_callback (s.windows window).callbacks (slot i)
    then elim (s.windows window).user_pointer [ none ↦ none | some q ↦ push_at q (input_event i) s ]
    else some s

abbrev pub no_event : Option Session → Stepped
no_event none = none
no_event (some s) = some (s, [])

unfoldable pub step : Action → Session → Stepped
step Action.create s = some (create_queue s, [])
step (Action.destroy queue) s = no_event (queue_destroy queue s)
step (Action.push queue event) s = no_event (push_event queue event s)
step (Action.pop queue) s = pop_event queue s
step (Action.register window queue) s = some (register_events window queue s, [])
step (Action.input window i) s = no_event (window_input window i s)

unfoldable pub run : List Action → Session → Option Session
run [] s = some s
run (a ∷ rest) s = elim (step a s) [ none ↦ none | some (s', events) ↦ run rest s' ]

-- The memory of a queue at its address is live.
abbrev pub IsLive : ℕ → Session → Type 0
IsLive q s = (l : List DeferredEvent) × (s.queues q ≡ some l)

-- A window with a callback has a user pointer to a live queue.
abbrev pub IsSafe : Session → Type 0
IsSafe s =
    (w : ℕ) (k : Slot)
    → has_callback (s.windows w).callbacks k ≡ true
    → (q : ℕ) × ((s.windows w).user_pointer ≡ some q) × IsLive q s

-- What the caller has to see to: queues are live, and no window has the queue that is destroyed.
abbrev pub IsAllowed : Action → Session → Type 0
IsAllowed Action.create s = Unit
IsAllowed (Action.destroy none) s = Unit
IsAllowed (Action.destroy (some q)) s = IsLive q s × ((w : ℕ) → (s.windows w).user_pointer ≢ some q)
IsAllowed (Action.push none event) s = Unit
IsAllowed (Action.push (some q) event) s = IsLive q s
IsAllowed (Action.pop none) s = ⊥
IsAllowed (Action.pop (some q)) s = IsLive q s
IsAllowed (Action.register none queue) s = Unit
IsAllowed (Action.register (some w) none) s = Unit
IsAllowed (Action.register (some w) (some q)) s = IsLive q s
IsAllowed (Action.input w i) s = Unit

abbrev pub AllAllowed : List Action → Session → Type 0
AllAllowed [] s = Unit
AllAllowed (a ∷ rest) s =
    IsAllowed a s
    × ((s' : Session) (events : List DeferredEvent)
        → step a s ≡ some (s', events)
        → AllAllowed rest s')

-- ===== src/Glfw/Sessions/Safety.antt =====
-- No step of a session reads a queue that is not there, where queues are destroyed after their
-- windows are done with them: glfw/glfw_ffi.cpp and interop/interop_ffi.cpp.
use evo_runtime.Common.{
  ℕ, ◌≡◌, refl, ap, ◌∙◌, ◌≢◌, true, none, some, List, [], ◌∷◌, ◌++◌, ◌==◌, Option-cases, Bool-cases,
  inl, inr, ==_iff,
}
use evo_runtime.Interop.Events.{DeferredEvent}
use evo_runtime.Interop.Queue.{empty_queue_error}
use evo_runtime.Glfw.Callbacks.{Input, slot, input_event}
use evo_runtime.Glfw.Windows.{update, has_callback, register_window-pointer}
use evo_runtime.Glfw.Sessions.{
  Session, Action, step, run, create_queue, queue_destroy, push_at, push_event, pop_event,
  register_events, window_input, IsLive, IsSafe, IsAllowed, AllAllowed,
}

-- Overwriting a queue with a live one keeps the others live.
IsLive-update :
    (s : Session) (p q : ℕ) (l : List DeferredEvent)
    → IsLive q s
    → IsLive q (record s { queues = update s.queues p (some l) })
IsLive-update s p q l (m, e) = elim (Bool-cases (p == q)) [
  | inl h ↦ (l, rw h)
  | inr h ↦ (m, rw h e)
]

IsSafe-update :
    (s : Session) (p : ℕ) (l : List DeferredEvent)
    → IsSafe s
    → IsSafe (record s { queues = update s.queues p (some l) })
IsSafe-update s p l safe w k h = let (q, e, live) = safe w k h in (q, e, IsLive-update s p q l live)

-- Destroying a queue keeps the others live.
still-IsLive :
    (s : Session) (p q : ℕ)
    → q ≢ p
    → IsLive p s
    → IsLive p (record s { queues = update s.queues q none })
still-IsLive s p q different (l, e) = elim (Bool-cases (q == p)) [
  | inl h ↦ absurd (different ((==_iff q p).0 h))
  | inr h ↦ (l, rw h e)
]

pub registered-IsSafe :
    (w q : ℕ) (s : Session) → IsSafe s → IsLive q s → IsSafe (register_events (some w) (some q) s)
unfolding register_events
registered-IsSafe w q s safe live v k c = elim (Bool-cases (w == v)) [
  | inl h ↦ (q, rw h (register_window-pointer q (s.windows w)), live)
  | inr h ↦ let (p, pointer, there) = safe v k (rw h at c) in (p, rw h pointer, there)
]

abbrev Proceeds : Action → Session → Type 0
Proceeds a s =
    (s' : Session) × (events : List DeferredEvent) × (step a s ≡ some (s', events)) × IsSafe s'

push_at-Proceeds :
    (s : Session) (q : ℕ) (event : DeferredEvent)
    → IsSafe s
    → IsLive q s
    → (s' : Session) × (push_at q event s ≡ some s') × IsSafe s'
unfolding push_at
push_at-Proceeds s q event safe (l, e) = (
  record s { queues = update s.queues q (some (l ++ event ∷ [])) },
  rw (e, push_at),
  IsSafe-update s q (l ++ event ∷ []) safe,
)

step-Proceeds : (a : Action) (s : Session) → IsSafe s → IsAllowed a s → Proceeds a s
unfolding step create_queue queue_destroy push_event pop_event register_events window_input
step-Proceeds Action.create s safe h = (create_queue s, [], refl, IsSafe-update s s.next [] safe)
step-Proceeds (Action.destroy none) s safe h = (s, [], refl, safe)
step-Proceeds (Action.destroy (some q)) s safe ((l, e), unused) = (
  record s { queues = update s.queues q none },
  [],
  rw (e, queue_destroy),
  λ w k h.
      let (p, pointer, live) = safe w k h in
      (p, pointer, still-IsLive s p q (λ same. unused w (rw same pointer)) live),
)
step-Proceeds (Action.push none event) s safe h = (s, [], refl, safe)
step-Proceeds (Action.push (some q) event) s safe h =
    let (s', e, safe') = push_at-Proceeds s q event safe h in (s', [], rw e, safe')
step-Proceeds (Action.pop none) s safe h = absurd h
step-Proceeds (Action.pop (some q)) s safe ([], e) = (
  record s { queues = update s.queues q (some []) },
  empty_queue_error ∷ [],
  rw (e, pop_event),
  IsSafe-update s q [] safe,
)
step-Proceeds (Action.pop (some q)) s safe (event ∷ l, e) = (
  record s { queues = update s.queues q (some l) },
  event ∷ [],
  rw (e, pop_event),
  IsSafe-update s q l safe,
)
step-Proceeds (Action.register none queue) s safe h = (s, [], refl, safe)
step-Proceeds (Action.register (some w) none) s safe h = (s, [], refl, safe)
step-Proceeds (Action.register (some w) (some q)) s safe h =
    (register_events (some w) (some q) s, [], refl, registered-IsSafe w q s safe h)
step-Proceeds (Action.input w i) s safe h =
    elim (Bool-cases (has_callback (s.windows w).callbacks (slot i))) [
      | inr e ↦ (s, [], rw (e, window_input), safe)
      | inl e ↦
          let (q, pointer, live) = safe w (slot i) e in
          let (s', pushed, safe') = push_at-Proceeds s q (input_event i) safe live in
          (s', [], rw (e, window_input) (rw pointer (rw pushed)), safe')
    ]

dead_push :
    (s : Session) (q : ℕ) (event : DeferredEvent) → s.queues q ≡ none → push_at q event s ≡ none
unfolding push_at
dead_push s q event e = rw (e, push_at)

input_after_destroy :
    (s : Session) (w q : ℕ) (i : Input) (after : Session)
    → has_callback (s.windows w).callbacks (slot i) ≡ true
    → (s.windows w).user_pointer ≡ some q
    → queue_destroy (some q) s ≡ some after
    → window_input w i after ≡ none
unfolding queue_destroy window_input push_at
input_after_destroy s w q i after c pointer e = elim (Option-cases (s.queues q)) [
  | inl dead ↦ cc (rw (dead, queue_destroy) at e)
  | inr (l, live) ↦
      let same : after ≡ record s { queues = update s.queues q none } =
        cc (rw (live, queue_destroy) at e) in
      let gone : update s.queues q none q ≡ none = rw ((==_iff q q).1 refl) in
      let windows : after.windows ≡ s.windows = ap (λ (t : Session). t.windows) same in
      let dead : after.queues q ≡ none = ap (λ (t : Session). t.queues q) same ∙ gone in
      rw (windows, window_input) (rw c (rw pointer (dead_push after q (input_event i) dead)))
]

-- From a session in which every window with a callback has a pointer to a live queue, any sequence
-- of calls and inputs in which only live queues are used, and none that a window has is destroyed,
-- runs without a fault to such a session; and an input to a window whose queue was destroyed is a
-- fault.
pub run_safely :
    (actions : List Action) (s : Session)
    → IsSafe s
    → AllAllowed actions s
    → ((s' : Session) × (run actions s ≡ some s') × IsSafe s')
      × ((w q : ℕ) (i : Input) (after : Session)
          → has_callback (s.windows w).callbacks (slot i) ≡ true
          → (s.windows w).user_pointer ≡ some q
          → queue_destroy (some q) s ≡ some after
          → window_input w i after ≡ none)
unfolding run
run_safely [] s safe h = ((s, refl, safe), input_after_destroy s)
run_safely (a ∷ rest) s safe (allowed, further) =
    let (s', events, e, safe') = step-Proceeds a s safe allowed in
    let (t, ran, safely) = (run_safely rest s' safe' (further s' events e)).0 in
    ((t, rw (e, run) ran, safely), input_after_destroy s)

-- ===== src/WebServer/Refinement.antt =====
-- The server implements its view: each callback and each call from Lua does to the view what the
-- specification in `View` allows, whatever the maps and the log of calls look like behind it.
use evo_runtime.Common.{ℕ, ◌≡◌, refl, List, [], ◌∷◌}
use evo_runtime.WebServer.State.{Uws, WebServer, new_server}
use evo_runtime.WebServer.Steps.{Action, callback, command, step, run}
use evo_runtime.WebServer.Invariant.{WellFormed}
use evo_runtime.WebServer.Histories.{step-WellFormed}
use evo_runtime.WebServer.View.{view, Explains, Chronicle}
use evo_runtime.WebServer.Refinement.Callbacks.{handle-view}
use evo_runtime.WebServer.Refinement.Commands.{execute-view}
mod Parts
mod Callbacks
mod Commands

step-view :
    (uws : Uws) (a : Action) (s : WebServer)
    → WellFormed s
    → Explains a (view s) (view (step uws a s))
unfolding step
step-view uws (callback c) s w = handle-view c s
step-view uws (command c) s w = execute-view uws c s w

-- The server refines the specification of its view: from a well-formed server, any sequence of
-- callbacks and commands takes the view through states each of which the specification allows after
-- the one before it, and ends in the view of the server that the code ends in.
pub run_refines :
    (uws : Uws) (actions : List Action) (s : WebServer)
    → WellFormed s
    → Chronicle actions (view s) (view (run uws actions s))
unfolding run
run_refines uws [] s w = refl
run_refines uws (a ∷ rest) s w = (
  view (step uws a s),
  step-view uws a s w,
  run_refines uws rest (step uws a s) (step-WellFormed uws a s w),
)

-- ===== src/WebServer/View.antt =====
-- The server of WebServer.cpp as its users see it, with no maps, faded entries or calls of uws:
-- what each id is connected to, which requests are pending, and the queue of events.
use evo_runtime.Common.{
  ℕ, ◌≡◌, Bool, Option, none, some, List, [], ◌∷◌, ◌++◌, ◌⊎◌, if◌then◌else◌, All,
}
use evo_runtime.Common.Bytes.{Bytes, codes, key_eq}
use evo_runtime.Common.Map.{find}
use evo_runtime.WebServer.Status.{EventType}
use evo_runtime.WebServer.State.{DeferredEvent, HttpMessageData, WebSocket, WebServer, event}
use evo_runtime.WebServer.Callbacks.{request_details}
use evo_runtime.WebServer.Connections.{find_client_by_id}
use evo_runtime.WebServer.Steps.{Callback, Command, Action, callback, command}
use evo_runtime.WebServer.Queue.{reported_by}

pub record View : Type 0 where
  pub listening : Option ℕ
  pub clients : Bytes → Option WebSocket
  pub requests : Bytes → Option HttpMessageData
  pub queue : List DeferredEvent
  pub echoes : Bool

abbrev pub view : WebServer → View
view s = record {
  listening = s.listen_socket;
  clients = λ id. find_client_by_id id s;
  requests = λ id. find id s.http_clients;
  queue = s.deferred_events;
  echoes = s.is_echo_server;
}

abbrev pub set_at {ℓ} : {V : Type ℓ} → Bytes → V → (Bytes → V) → Bytes → V
set_at id v f j = if key_eq id j then v else f j

abbrev pub added :
    Bytes → HttpMessageData → (Bytes → Option HttpMessageData) → Bytes → Option HttpMessageData
added id client f = elim (f id) [ none ↦ set_at id (some client) f | some _ ↦ f ]

-- What each callback does to the view, apart from the events that it queues.
abbrev pub changed : Callback → View → View
changed (Callback.listening port text none) v = v
changed (Callback.listening port text (some socket)) v = record v { listening = some socket }
changed (Callback.upgrading uuid response) v = v
changed (Callback.opened w) v = record v {
  clients = set_at w.user_data.client_id (some w) v.clients;
}
changed (Callback.closed w code message) v = record v {
  clients = set_at w.user_data.client_id none v.clients;
}
changed (Callback.received w message op_code) v = v
changed (Callback.requested uuid response request route) v = record v {
  requests =
      added uuid (record { request_details = request_details request route; response = response })
        v.requests;
}
changed (Callback.chunk id text is_last) v = v
changed (Callback.writable id offset) v = v
changed (Callback.aborted id) v = record v { requests = set_at id none v.requests }

abbrev pub queued : List DeferredEvent → View → View
queued events v = record v { queue = v.queue ++ events }

-- A CLOSE event of a client that is connected.
abbrev pub Closes : View → DeferredEvent → Type 0
Closes v e = (e.type ≡ EventType.close) × ((w : WebSocket) × (v.clients e.client_id ≡ some w))

-- A server that does not listen stays as it is. One that does loses all clients and requests, and
-- queues CLOSE events of connected clients and then one SHUTDOWN.
abbrev pub Stops : Option ℕ → View → View → Type 0
Stops none v u = u ≡ v
Stops (some socket) v u =
    (closing : List DeferredEvent) × All (Closes v) closing
    × (u ≡ record {
      listening = none;
      clients = λ id. none;
      requests = λ id. none;
      queue =
          (v.queue ++ closing)
          ++ event EventType.shutdown (codes "SERVER") (codes "Going Away") ∷ [];
      echoes = v.echoes;
    })

-- What a command may do to the view.
abbrev pub Allows : Command → View → View → Type 0
Allows (Command.get_next_event b) v u =
    (u ≡ v) ⊎ ((e : DeferredEvent) × (v ≡ record u { queue = e ∷ u.queue }))
Allows Command.stop v u = Stops v.listening v u
Allows (Command.set_echo enabled_flag) v u = u ≡ record v { echoes = enabled_flag }
Allows (Command.response_end id text) v u = u ≡ record v { requests = set_at id none v.requests }
Allows (Command.response_try_end id text) v u =
    (u ≡ v) ⊎ (u ≡ record v { requests = set_at id none v.requests })
Allows _ v u = u ≡ v

abbrev pub Explains : Action → View → View → Type 0
Explains (callback c) v u = u ≡ queued (reported_by c) (changed c v)
Explains (command c) v u = Allows c v u

-- A history of views.
abbrev pub Chronicle : List Action → View → View → Type 0
Chronicle [] v u = u ≡ v
Chronicle (a ∷ rest) v u = (w : View) × Explains a v w × Chronicle rest w u

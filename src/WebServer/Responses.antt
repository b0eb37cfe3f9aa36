-- ===== src/WebServer/Responses.antt =====
-- WebServer.cpp, the end of a request: what a response's functions do once it has ended.
use evo_runtime.Common.{
  ◌&&◌, Bool, true, if◌then◌else◌, ℕ, ◌≡◌, refl, false, not, none, some, [], ◌∷◌, ◌++◌, arith,
  Option-cases, inl, inr,
}
use evo_runtime.Common.Bytes.{Bytes, key_eq, key_eq_iff, key_eq_refl}
use evo_runtime.Common.Map.{find, erase, find-erase}
use evo_runtime.WebServer.Status.{HttpSendStatus, encode_result}
use evo_runtime.WebServer.State.{HttpMessageData, UwsCall, Uws, WebServer, enqueue, ask}
use evo_runtime.WebServer.Callbacks.{on_connection_aborted}
use evo_runtime.WebServer.Messaging.{
  write_response, end_response, try_end_response, write_response_status, write_response_header,
}
use evo_runtime.WebServer.Requests.{
  has_request, get_request_method, get_request_url, get_request_query, get_request_endpoint,
  get_request_header, get_serialized_request_headers,
}

-- Nothing can be done with the request of an id: every function of its response fails without a
-- call of uws, and every getter without a write.
pub record Gone (uws : Uws) (id : Bytes) (s : WebServer) : Type 0 where
  pub unknown : has_request id s ≡ false
  pub no_write : (text : Bytes) → write_response uws id text s ≡ (HttpSendStatus.none, s)
  pub no_end : (text : Bytes) → end_response uws id text s ≡ (HttpSendStatus.none, s)
  pub no_try_end : (text : Bytes) → try_end_response uws id text s ≡ (HttpSendStatus.none, s)
  pub no_status : (text : Bytes) → write_response_status uws id text s ≡ (false, s)
  pub no_header : (key value : Bytes) → write_response_header uws id key value s ≡ (false, s)
  pub no_method :
      (buffer : Bytes) (size : ℕ) → get_request_method id buffer size s ≡ some (false, buffer)
  pub no_url : (buffer : Bytes) (size : ℕ) → get_request_url id buffer size s ≡ some (false, buffer)
  pub no_query :
      (buffer : Bytes) (size : ℕ) → get_request_query id buffer size s ≡ some (false, buffer)
  pub no_endpoint :
      (buffer : Bytes) (size : ℕ) → get_request_endpoint id buffer size s ≡ some (false, buffer)
  pub no_request_header :
      (name buffer : Bytes) (size : ℕ)
      → get_request_header id name buffer size s ≡ some (false, buffer)
  pub no_headers :
      (buffer : Bytes) (size : ℕ)
      → get_serialized_request_headers id buffer size s ≡ some (false, buffer)

pub missing-Gone :
    (uws : Uws) (id : Bytes) (s : WebServer) → find id s.http_clients ≡ none → Gone uws id s
unfolding has_request write_response end_response try_end_response write_response_status
    write_response_header get_request_method get_request_url get_request_query get_request_endpoint
    get_request_header get_serialized_request_headers
missing-Gone uws id s h = record {
  unknown = rw (has_request, h) refl;
  no_write = λ text. rw (write_response, h) refl;
  no_end = λ text. rw (end_response, h) refl;
  no_try_end = λ text. rw (try_end_response, h) refl;
  no_status = λ text. rw (write_response_status, h) refl;
  no_header = λ key value. rw (write_response_header, h) refl;
  no_method = λ buffer size. rw (get_request_method, h) refl;
  no_url = λ buffer size. rw (get_request_url, h) refl;
  no_query = λ buffer size. rw (get_request_query, h) refl;
  no_endpoint = λ buffer size. rw (get_request_endpoint, h) refl;
  no_request_header = λ name buffer size. rw (get_request_header, h) refl;
  no_headers = λ buffer size. rw (get_serialized_request_headers, h) refl;
}

-- Where `ended` holds the id finds nothing, and every other id finds what it found before;
-- otherwise every id does.
abbrev pub Forgets : Bool → Bytes → WebServer → WebServer → Type 0
Forgets ended id s t =
    (j : Bytes)
    → find j t.http_clients ≡ (if ended && key_eq id j then none else find j s.http_clients)

erased_here : (id : Bytes) (s : WebServer) → find id (erase id s.http_clients) ≡ none
erased_here id s = ground (arith, find-erase id id s.http_clients, key_eq_refl id)

find-missing :
    (id j : Bytes) (s : WebServer)
    → find id s.http_clients ≡ none
    → find j s.http_clients ≡ (if key_eq id j then none else find j s.http_clients)
find-missing id j s h = ground (arith, key_eq_iff id j, h)

end_response-Forgets :
    (uws : Uws) (id text : Bytes) (s : WebServer) → Forgets true id s (end_response uws id text s).1
unfolding end_response ask
end_response-Forgets uws id text s = elim (Option-cases (find id s.http_clients)) [
  | inl e ↦ rw (end_response, e) (λ j. find-missing id j s e)
  | inr (client, e) ↦ rw (end_response, e) (λ j. find-erase id j s.http_clients)
]

-- Ending a response leaves nothing to do with its request, whether there was one or not, and so
-- does the connection's end; all other requests are as they were.
pub end_response-Gone :
    (uws : Uws) (id text : Bytes) (s : WebServer)
    → Gone uws id (end_response uws id text s).1
      × Forgets true id s (end_response uws id text s).1
      × Gone uws id (on_connection_aborted id s)
      × Forgets true id s (on_connection_aborted id s)
unfolding on_connection_aborted enqueue
end_response-Gone uws id text s =
    let forgets = end_response-Forgets uws id text s in
    (
      missing-Gone uws id (end_response uws id text s).1
          (ground (arith, forgets id, key_eq_refl id)),
      forgets,
      missing-Gone uws id (on_connection_aborted id s) (erased_here id s),
      λ j. find-erase id j s.http_clients,
    )

-- `TryEndResponse` on a request that the server has asks uws once, returns the two answers as one
-- status, and forgets the request exactly if the second answer says that the response has ended;
-- all other requests are as they were.
pub try_end_response_lem :
    (uws : Uws) (id text : Bytes) (client : HttpMessageData) (s : WebServer)
    → find id s.http_clients ≡ some client
    → let t = (try_end_response uws id text s).1 in
      let (first, second) = uws.try_end t.calls in
      (t.calls ≡ s.calls ++ UwsCall.tries_end client.response text ∷ [])
      × ((try_end_response uws id text s).0 ≡ encode_result first second)
      × (has_request id t ≡ not second)
      × Forgets second id s t
unfolding try_end_response ask has_request
try_end_response_lem uws id text client s h = (
  ground (arith, h),
  ground (arith, h),
  ground (arith, h, erased_here id s),
  λ j. ground (arith, h, find-erase id j s.http_clients),
)

-- ===== src/WebServer/Details.antt =====
-- WebServer.cpp, request details: what the getters give back of a request that OnRequest stored.
use evo_runtime.Common.{
  ℕ, ◌+◌, ◌-◌, ◌%◌, ◌^◌, ◌≤◌, ◌<◌, ◌≡◌, refl, ap, ◌∙◌, Bool, true, false, Option, none, some, List,
  [], ◌∷◌, arith, Bool-cases, inl, inr, if◌then◌else◌, length, take, take_all, ltb, ◌⊎◌,
}
use evo_runtime.Common.Bytes.{Bytes, key_eq, key_eq_refl, c_string}
use evo_runtime.Common.Copies.{strncpy_room}
use evo_runtime.Common.Map.{Map, find, assign, emplace, find-assign}
use evo_runtime.WebServer.State.{HttpRequest, HttpMessageData, WebServer, enqueue, ask}
use evo_runtime.WebServer.Callbacks.{
  copy_headers, request_details, store_request_details, set_callback_handlers, on_request,
}
use evo_runtime.WebServer.Requests.{
  has_request, copy_text, done, get_request_method, get_request_url, get_request_query,
  get_request_endpoint, get_request_header, serialized_headers, get_serialized_request_headers,
}

-- The value that a name has last in a list of headers, or else `value`.
abbrev pub last_value : Bytes → List (Bytes × Bytes) → Option Bytes → Option Bytes
last_value name [] value = value
last_value name ((k, v) ∷ rest) value =
    last_value name rest (if key_eq k name then some v else value)

-- What the loop over the headers stores under a name is the value it has last in the request, or
-- what was stored before.
pub find-copy_headers :
    (name : Bytes) (headers : List (Bytes × Bytes)) (m : Map Bytes)
    → find name (copy_headers headers m) ≡ last_value name headers (find name m)
unfolding copy_headers
find-copy_headers name [] m = refl
find-copy_headers name ((k, v) ∷ rest) m =
    find-copy_headers name rest (assign k v m) ∙ ap (last_value name rest) (find-assign k name v m)

-- A copy of a text for a caller: as much of it as the size leaves room for before the NUL.
pub Copied : Bytes → Bytes → ℕ → Option (Bool × Bytes) → Type 0
Copied text buffer size result =
    (filled : Bytes) × (result ≡ some (true, filled))
    × (c_string filled ≡ take (size - 1) (c_string text))
    × (length filled ≡ length buffer)

copy_text-Copied :
    (text buffer : Bytes) (size : ℕ)
    → 0 < size
    → size ≤ length buffer
    → size < 2 ^ 64
    → Copied text buffer size (done (copy_text text buffer size))
unfolding Copied
copy_text-Copied text buffer size positive room small =
    let (filled, ok, same, kept, _) =
      strncpy_room (size - 1) buffer text (omega (arith, positive, room)) in
    let copied : copy_text text buffer size ≡ some filled = unfold copy_text in rw wrapped ok in
    (filled, rw copied refl, same, kept)
  where
    wrapped : (size + 2 ^ 64 - 1) % 2 ^ 64 ≡ size - 1
    wrapped = omega (arith, positive, small)

-- A request with a new id is stored whole, and one whose id is in use leaves what is stored.
pub on_request_lem :
    (id : Bytes) (response : ℕ) (request : HttpRequest) (route : Bytes) (s : WebServer)
    → find id (on_request id response request route s).http_clients
      ≡ elim (find id s.http_clients) [
        | none ↦
            some (record { request_details = request_details request route; response = response })
        | some client ↦ some client
      ]
unfolding on_request store_request_details set_callback_handlers enqueue ask emplace
on_request_lem id response request route s = ground (
  arith,
  find-assign id id
      (record { request_details = request_details request route; response = response })
      s.http_clients,
  key_eq_refl id,
)

-- After a request with a new id, each getter gives back the text that the request came with, cut to
-- what the caller's buffer has room for, and for a header the last value of its name: for a size
-- that is not zero and not more than the buffer has.
pub on_request-get_request :
    (id : Bytes) (response : ℕ) (request : HttpRequest) (route name value buffer : Bytes) (size : ℕ)
    (s : WebServer)
    → find id s.http_clients ≡ none
    → last_value name request.headers none ≡ some value
    → 0 < size
    → size ≤ length buffer
    → size < 2 ^ 64
    → let t = on_request id response request route s in
      (has_request id t ≡ true)
      × Copied request.method buffer size (get_request_method id buffer size t)
      × Copied request.url buffer size (get_request_url id buffer size t)
      × Copied request.query buffer size (get_request_query id buffer size t)
      × Copied route buffer size (get_request_endpoint id buffer size t)
      × Copied value buffer size (get_request_header id name buffer size t)
unfolding has_request get_request_method get_request_url get_request_query get_request_endpoint
    get_request_header request_details
on_request-get_request id response request route name value buffer size s fresh last positive room
      small =
    (
      rw (has_request, stored) refl,
      rw (get_request_method, stored) (copied request.method),
      rw (get_request_url, stored) (copied request.url),
      rw (get_request_query, stored) (copied request.query),
      rw (get_request_endpoint, stored) (copied route),
      rw (get_request_header, stored, found) (copied value),
    )
  where
    copied : (text : Bytes) → Copied text buffer size (done (copy_text text buffer size))
    copied text = copy_text-Copied text buffer size positive room small

    stored :
        find id (on_request id response request route s).http_clients
        ≡ some (record { request_details = request_details request route; response = response })
    stored = rw fresh at (on_request_lem id response request route s)

    found : find name (copy_headers request.headers []) ≡ some value
    found = unfold find in (find-copy_headers name request.headers [] ∙ last)

length-c_string : (x : Bytes) → length (c_string x) ≤ length x
unfolding c_string
length-c_string [] = omega arith
length-c_string (a ∷ x) = ground (arith, length-c_string x)

-- The serialized headers of a request are copied whole, with a NUL, or, where the size leaves no
-- room for that, not at all, for a size of at most the buffer's.
pub get_serialized_request_headers_lem :
    (id buffer : Bytes) (size : ℕ) (client : HttpMessageData) (s : WebServer)
    → find id s.http_clients ≡ some client
    → size ≤ length buffer
    → size < 2 ^ 64
    → let text = serialized_headers client.request_details.headers in
      ((size ≤ length text)
        × (get_serialized_request_headers id buffer size s ≡ some (false, buffer)))
      ⊎ ((length text < size)
          × (filled : Bytes) × (get_serialized_request_headers id buffer size s
              ≡ some (true, filled))
          × (c_string filled ≡ c_string text)
          × (length filled ≡ length buffer))
unfolding get_serialized_request_headers Copied
get_serialized_request_headers_lem id buffer size client s h room small =
    let text = serialized_headers client.request_details.headers in
    elim (Bool-cases (ltb size (length text + 1))) [
      | inl e ↦ inl (ground (arith, e), ground (arith, h, e))
      | inr e ↦
          let fits : length text < size = ground (arith, e) in
          let (filled, ok, same, kept) =
            copy_text-Copied text buffer size (omega (arith, fits)) room small in
          inr (
            fits,
            filled,
            ground (arith, h, e, ok),
            same ∙ take_all (size - 1) (c_string text) (omega (arith, fits, length-c_string text)),
            kept,
          )
    ]

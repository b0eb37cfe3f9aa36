-- ===== src/WebServer/Requests.antt =====
-- WebServer.cpp, request details: the getters that copy a text into a caller's buffer. The result
-- is `none` where the copy would write past the buffer, and otherwise the returned flag and the
-- buffer afterwards.
use evo_runtime.Common.{
  ℕ, ◌+◌, Bool, true, false, Option, none, some, [], ◌∷◌, ◌++◌, if◌then◌else◌, ltb, length,
}
use evo_runtime.Common.Bytes.{Bytes, codes, pred_size, strncpy, store, ◌>>=◌}
use evo_runtime.Common.Map.{Map, find}
use evo_runtime.WebServer.State.{WebServer}

unfoldable pub has_request : Bytes → WebServer → Bool
has_request id s = elim (find id s.http_clients) [ none ↦ false | some _ ↦ true ]

-- `strncpy(buffer, text.c_str(), bufferSize - 1); buffer[bufferSize - 1] = '\0';`
unfoldable pub copy_text : Bytes → Bytes → ℕ → Option Bytes
copy_text text buffer size = do
  written ← strncpy buffer text (pred_size size)
  store written (pred_size size) 0

abbrev pub done : Option Bytes → Option (Bool × Bytes)
done none = none
done (some buffer) = some (true, buffer)

unfoldable pub get_request_method : Bytes → Bytes → ℕ → WebServer → Option (Bool × Bytes)
unfolding copy_text
get_request_method id buffer size s = elim (find id s.http_clients) [
  | none ↦ some (false, buffer)
  | some client ↦ done (copy_text client.request_details.method buffer size)
]

unfoldable pub get_request_url : Bytes → Bytes → ℕ → WebServer → Option (Bool × Bytes)
unfolding copy_text
get_request_url id buffer size s = elim (find id s.http_clients) [
  | none ↦ some (false, buffer)
  | some client ↦ done (copy_text client.request_details.url buffer size)
]

unfoldable pub get_request_query : Bytes → Bytes → ℕ → WebServer → Option (Bool × Bytes)
unfolding copy_text
get_request_query id buffer size s = elim (find id s.http_clients) [
  | none ↦ some (false, buffer)
  | some client ↦ done (copy_text client.request_details.query buffer size)
]

unfoldable pub get_request_endpoint : Bytes → Bytes → ℕ → WebServer → Option (Bool × Bytes)
unfolding copy_text
get_request_endpoint id buffer size s = elim (find id s.http_clients) [
  | none ↦ some (false, buffer)
  | some client ↦ done (copy_text client.request_details.endpoint buffer size)
]

unfoldable pub get_request_header : Bytes → Bytes → Bytes → ℕ → WebServer → Option (Bool × Bytes)
unfolding copy_text
get_request_header id name buffer size s = elim (find id s.http_clients) [
  | none ↦ some (false, buffer)
  | some client ↦ elim (find name client.request_details.headers) [
    | none ↦ some (false, buffer)
    | some value ↦ done (copy_text value buffer size)
  ]
]

unfoldable pub serialized_headers : Map Bytes → Bytes
serialized_headers [] = []
serialized_headers ((key, value) ∷ rest) =
    key ++ (codes ": " ++ (value ++ (13 ∷ 10 ∷ serialized_headers rest)))

unfoldable pub get_serialized_request_headers :
    Bytes → Bytes → ℕ → WebServer → Option (Bool × Bytes)
unfolding copy_text
get_serialized_request_headers id buffer size s = elim (find id s.http_clients) [
  | none ↦ some (false, buffer)
  | some client ↦
      let text = serialized_headers client.request_details.headers in
      if ltb size (length text + 1) then some (false, buffer) else done (copy_text text buffer size)
]

-- ===== src/Examples/Requests.antt =====
-- The theorems of WebServer.cpp about requests and responses, at the server of `Examples.Server`.
use evo_runtime.Common.{◌≡◌, refl, true, none, some, [], ◌∷◌, arith}
use evo_runtime.Common.Bytes.{Bytes, codes, key_eq}
use evo_runtime.Common.Map.{find}
use evo_runtime.WebServer.Callbacks.{on_request, on_connection_aborted}
use evo_runtime.WebServer.Messaging.{end_response}
use evo_runtime.WebServer.Requests.{
  has_request, get_request_method, get_request_url, get_request_query, get_request_endpoint,
  get_request_header,
}
use evo_runtime.WebServer.Responses.{Gone, Forgets, end_response-Gone}
use evo_runtime.WebServer.Details.{last_value, Copied, on_request-get_request}
use evo_runtime.Examples.Server.{uws, request, pending, server}

abbrev memory : Bytes
memory = 1 ∷ 1 ∷ 1 ∷ 1 ∷ []

end_response-Gone_example :
    Gone uws (codes "r") (end_response uws (codes "r") (codes "done") server).1
    × Forgets true (codes "r") server (end_response uws (codes "r") (codes "done") server).1
    × Gone uws (codes "r") (on_connection_aborted (codes "r") server)
    × Forgets true (codes "r") server (on_connection_aborted (codes "r") server)
end_response-Gone_example = end_response-Gone uws (codes "r") (codes "done") server

found : find (codes "r") server.http_clients ≡ some pending
unfolding find key_eq
found = refl

fresh : find (codes "s") server.http_clients ≡ none
unfolding find key_eq
fresh = refl

two : last_value (codes "host") request.headers none ≡ some (codes "two")
unfolding key_eq
two = refl

on_request-get_request_example :
    let t = on_request (codes "s") 10 request (codes "/*") server in
    (has_request (codes "s") t ≡ true)
    × Copied request.method memory 3 (get_request_method (codes "s") memory 3 t)
    × Copied request.url memory 3 (get_request_url (codes "s") memory 3 t)
    × Copied request.query memory 3 (get_request_query (codes "s") memory 3 t)
    × Copied (codes "/*") memory 3 (get_request_endpoint (codes "s") memory 3 t)
    × Copied (codes "two") memory 3 (get_request_header (codes "s") (codes "host") memory 3 t)
on_request-get_request_example =
    on_request-get_request (codes "s") 10 request (codes "/*") (codes "host") (codes "two") memory 3
      server fresh two (omega arith) (omega arith) (omega arith)

-- ===== src/WebServer/Clients.antt =====
-- The clients that a server is connected to: who is live, and how opening, closing, purging and
-- disconnecting change what FindClientByID sees.
use evo_runtime.Common.{
  ℕ, suc, ◌+◌, ◌≡◌, refl, Option, none, some, List, [], ◌∷◌, arith, if◌then◌else◌, length,
}
use evo_runtime.Common.Bytes.{Bytes, key_eq, key_eq_iff}
use evo_runtime.Common.Map.{Map, find, Distinct, find-assign}
use evo_runtime.WebServer.State.{WebSocket, WebServer, enqueue}
use evo_runtime.WebServer.Callbacks.{on_websocket_open, on_websocket_close}
use evo_runtime.WebServer.Connections.{
  get_num_connected_clients, find_client_by_id, purge_from, purge_faded_clients,
}

-- The sockets of the clients that have not faded.
abbrev pub live : Map (Option WebSocket) → List WebSocket
live [] = []
live ((id, none) ∷ rest) = live rest
live ((id, some websocket) ∷ rest) = websocket ∷ live rest

abbrev pub faded : Map (Option WebSocket) → ℕ
faded [] = 0
faded ((id, none) ∷ rest) = suc (faded rest)
faded ((id, some websocket) ∷ rest) = faded rest

-- The pointer that a lookup returns.
abbrev flat : Option (Option WebSocket) → Option WebSocket
flat none = none
flat (some p) = p

flat-find :
    (id : Bytes) (s : WebServer) → find_client_by_id id s ≡ flat (find id s.websocket_clients)
unfolding find_client_by_id
flat-find id s = ground arith

-- After a client has connected, its id finds its socket, and every other id what it found before.
pub find_client_by_id-on_websocket_open :
    (id : Bytes) (websocket : WebSocket) (s : WebServer)
    → find_client_by_id id (on_websocket_open websocket s)
      ≡ (if key_eq websocket.user_data.client_id id then some websocket else find_client_by_id id s)
unfolding find_client_by_id on_websocket_open enqueue
find_client_by_id-on_websocket_open id websocket s =
    ground
      (arith, find-assign websocket.user_data.client_id id (some websocket) s.websocket_clients)

-- After a client has gone, its id finds no socket, and every other id what it found before.
pub find_client_by_id-on_websocket_close :
    (id : Bytes) (websocket : WebSocket) (code : ℕ) (message : Bytes) (s : WebServer)
    → find_client_by_id id (on_websocket_close websocket code message s)
      ≡ (if key_eq websocket.user_data.client_id id then none else find_client_by_id id s)
unfolding find_client_by_id on_websocket_close enqueue
find_client_by_id-on_websocket_close id websocket code message s =
    ground (arith, find-assign websocket.user_data.client_id id none s.websocket_clients)

purge_from-count :
    (m : Map (Option WebSocket)) (count : ℕ)
    → ((purge_from m count).1 ≡ count + faded m)
      × (length (purge_from m count).0 ≡ length (live m))
      × (live (purge_from m count).0 ≡ live m)
      × (faded (purge_from m count).0 ≡ 0)
unfolding purge_from
purge_from-count [] count = ground arith
purge_from-count ((id, none) ∷ rest) count = ground (arith, purge_from-count rest (count + 1))
purge_from-count ((id, some websocket) ∷ rest) count = ground (arith, purge_from-count rest count)

find-purge_from :
    (id : Bytes) (m : Map (Option WebSocket)) (count : ℕ)
    → Distinct m
    → flat (find id (purge_from m count).0) ≡ flat (find id m)
unfolding purge_from find
find-purge_from id [] count d = refl
find-purge_from id ((j, none) ∷ rest) count d =
    ground (arith, key_eq_iff j id, find-purge_from id rest (count + 1) d.1)
find-purge_from id ((j, some websocket) ∷ rest) count d =
    ground (arith, key_eq_iff j id, find-purge_from id rest count d.1)

pub find-purge_from_none :
    (id : Bytes) (m : Map (Option WebSocket)) (count : ℕ)
    → find id m ≡ none
    → find id (purge_from m count).0 ≡ none
unfolding purge_from find
find-purge_from_none id [] count e = refl
find-purge_from_none id ((j, none) ∷ rest) count e =
    ground (arith, find-purge_from_none id rest (count + 1))
find-purge_from_none id ((j, some websocket) ∷ rest) count e =
    ground (arith, find-purge_from_none id rest count)

-- Purging returns the number of faded clients and leaves none of them: what remains are the live
-- sockets in their order, and FindClientByID answers every id as before.
pub purge_faded_clients_lem :
    (id : Bytes) (s : WebServer)
    → Distinct s.websocket_clients
    → ((purge_faded_clients s).0 ≡ faded s.websocket_clients)
      × (faded (purge_faded_clients s).1.websocket_clients ≡ 0)
      × (live (purge_faded_clients s).1.websocket_clients ≡ live s.websocket_clients)
      × (get_num_connected_clients (purge_faded_clients s).1 ≡ length (live s.websocket_clients))
      × (find_client_by_id id (purge_faded_clients s).1 ≡ find_client_by_id id s)
unfolding purge_faded_clients get_num_connected_clients find_client_by_id
purge_faded_clients_lem id s d =
    ground
      (arith, purge_from-count s.websocket_clients 0, find-purge_from id s.websocket_clients 0 d)

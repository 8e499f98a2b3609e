-- ===== src/Api/Hub.antt =====
-- api/services/hub.go: the websockets that telemetry is pushed to.
pub mod Pushed
use carbmq_core.Base.{
  ℕ, ◌+◌, ℤ, String, Bool, true, false, List, [], ◌∷◌, ◌++◌, Option, none, some, if◌then◌else◌,
  nat_eq, ◌||◌,
}
use carbmq_core.Errors.{Error}
use carbmq_core.Qtt.Packet.{Time, RawMessage}

pub record TelemetryEvent : Type 0 where
  pub packet_id : String
  pub device_id : String
  pub topic : String
  pub qos : ℤ
  pub timestamp : Time
  pub payload : RawMessage

-- A `websocket.Conn`, by identity.
abbrev pub Socket : Type 0
Socket = ℕ

-- `clients` holds the keys of the map, in the order in which `Broadcast` ranges over them; `pushed`
-- and `closed` tell what was written, and on which sockets `Close` was called.
pub record Hub : Type 0 where
  pub clients : List Socket
  pub pushed : List (Socket × TelemetryEvent)
  pub closed : List Socket

-- `NewHub`
unfoldable pub new_hub : Hub
new_hub = record { clients = []; pushed = []; closed = [] }

unfoldable has_client : Socket → List Socket → Bool
has_client c [] = false
has_client c (x ∷ xs) = nat_eq x c || has_client c xs

-- `h.clients[conn] = struct{}{}`
unfoldable add_client : Socket → List Socket → List Socket
unfolding has_client
add_client c xs = if has_client c xs then xs else c ∷ xs

-- `delete(h.clients, conn)`
unfoldable delete_client : Socket → List Socket → List Socket
delete_client c [] = []
delete_client c (x ∷ xs) = let rest = delete_client c xs in if nat_eq x c then rest else x ∷ rest

-- `ServeWS`, on what `Upgrade` answers
unfoldable serve_ws : Option Error → Socket → Hub → Hub
serve_ws (some e) conn h = h
serve_ws none conn h = record h { clients = add_client conn h.clients }

-- The end of the reader of a socket, once `ReadMessage` fails.
unfoldable reader_ends : Socket → Hub → Hub
reader_ends conn h = record h {
  clients = delete_client conn h.clients;
  closed = h.closed ++ conn ∷ [];
}

-- one socket's turn in `Broadcast`
push : Option Error → Socket → TelemetryEvent → Hub → Hub
push none conn event h = record h { pushed = h.pushed ++ (conn, event) ∷ [] }
push (some e) conn event h = record h { closed = h.closed ++ conn ∷ [] }

push_all : (Socket → Option Error) → List Socket → TelemetryEvent → Hub → Hub
unfolding push
push_all fault [] event h = h
push_all fault (conn ∷ conns) event h = push_all fault conns event (push (fault conn) conn event h)

-- `Broadcast`; `fault` is what `WriteJSON` answers on a socket
unfoldable pub broadcast : (fault : Socket → Option Error) → TelemetryEvent → Hub → Hub
unfolding push_all
broadcast fault event h = push_all fault h.clients event h

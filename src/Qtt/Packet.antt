-- ===== src/Qtt/Packet.antt =====
-- pkg/qtt/types/packet.go: the packets of the QTT protocol.
use carbmq_core.Base.{ℕ, ℤ, pos, String, Bool, false, List, [], ◌∷◌, ◌++◌, ◌≡◌, refl, if◌then◌else◌}

-- Nanoseconds since Go's zero time, so that 0 is `time.Time{}`.
abbrev pub Time : Type 0
Time = ℕ

-- `time.Time.IsZero`
abbrev pub is_zero : Time → Bool
is_zero t = carbmq_core.Base.nat_eq t 0

-- `json.RawMessage`: bytes; `nil` and the empty slice are one.
abbrev pub RawMessage : Type 0
RawMessage = List ℕ

abbrev pub packet_connect : String
packet_connect = "CONNECT"

abbrev pub packet_conn_ack : String
packet_conn_ack = "CONNACK"

abbrev pub packet_publish : String
packet_publish = "PUBLISH"

abbrev pub packet_pub_ack : String
packet_pub_ack = "PUBACK"

abbrev pub packet_subscribe : String
packet_subscribe = "SUBSCRIBE"

abbrev pub packet_sub_ack : String
packet_sub_ack = "SUBACK"

abbrev pub packet_ping : String
packet_ping = "PING"

abbrev pub packet_pong : String
packet_pong = "PONG"

abbrev pub packet_disconnect : String
packet_disconnect = "DISCONNECT"

abbrev pub packet_error : String
packet_error = "ERROR"

pub record Subscription : Type 0 where
  pub topic : String
  pub qos : ℤ

pub record Packet : Type 0 where
  pub type : String
  pub packet_id : String
  pub client_id : String
  pub token : String
  pub topic : String
  pub qos : ℤ
  pub payload : RawMessage
  pub timestamp : Time
  pub subscriptions : List Subscription
  pub session_present : Bool
  pub status : String
  pub code : String
  pub error : String
  pub metadata : List (String × String)

-- Go's zero value, `Packet{}`.
abbrev pub zero_packet : Packet
zero_packet = record {
  type = "";
  packet_id = "";
  client_id = "";
  token = "";
  topic = "";
  qos = pos 0;
  payload = [];
  timestamp = 0;
  subscriptions = [];
  session_present = false;
  status = "";
  code = "";
  error = "";
  metadata = [];
}

-- `range` over a map that fills a fresh one.
copy_map : List (String × String) → List (String × String)
copy_map [] = []
copy_map (e ∷ m) = e ∷ copy_map m

-- `Packet.Clone`: every slice and the map are copied.
unfoldable pub clone : Packet → Packet
unfolding copy_map
clone p = record p {
  payload = [] ++ p.payload;
  subscriptions = [] ++ p.subscriptions;
  metadata = copy_map p.metadata;
}

copy_map_lem : (m : List (String × String)) → copy_map m ≡ m
unfolding copy_map
copy_map_lem [] = refl
copy_map_lem (e ∷ m) = carbmq_core.Base.ap (◌∷◌ e) (copy_map_lem m)

-- A copy has the same value.
pub clone_lem : (p : Packet) → clone p ≡ p
unfolding clone
clone_lem p = λ i. record p { metadata = copy_map_lem p.metadata i }

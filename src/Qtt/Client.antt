-- ===== src/Qtt/Client.antt =====
-- pkg/qtt/client/client.go: the client of the broker. A deadline only makes a call of the stream
-- fail, so it shows in the stream's answers.
pub mod Calls
pub mod Acks
use carbmq_core.Base.{
  ℕ, ◌+◌, ℤ, pos, leb_ℤ, String, Bool, true, false, List, [], ◌∷◌, ◌++◌, Option, none, some,
  if◌then◌else◌, ◌==◌,
}
use carbmq_core.Errors.{
  Error, Result, ok, err, external, dial_quic, open_stream, read_packet as read_failed,
  expected_conn_ack,
}
use carbmq_core.Qtt.Packet.{
  Packet, Time, RawMessage, Subscription, zero_packet, packet_connect, packet_conn_ack,
  packet_publish, packet_subscribe, packet_pub_ack, packet_ping,
}

-- `Config`; a duration is an integer of nanoseconds.
pub record Config : Type 0 where
  pub addr : String
  pub client_id : String
  pub token : String
  pub protocol_name : String
  pub write_timeout : ℤ
  pub read_timeout : ℤ

-- What the client's process is answered at its n-th call.
pub record Outside : Type 0 where
  pub clock : ℕ → Time
  pub new_packet_id : ℕ → String
  pub send_fault : ℕ → Option Error

-- The stream of a client: what the decoder will give, what was encoded, whether it was closed.
pub record Link : Type 0 where
  pub incoming : List (Result Packet)
  pub outgoing : List Packet
  pub calls : ℕ
  pub closed : Bool

-- A method that may fail; what it did to the stream stays done.
abbrev pub Exec : Type 0 → Type 0
Exec A = Link → Result A × Link

abbrev pub continue : {A B : Type 0} → (A → Exec B) → Result A × Link → Result B × Link
continue f (ok a, l) = f a l
continue f (err e, l) = (err e, l)

infixl 5 ◌>>=◌ ◌>>◌
abbrev pub ◌>>=◌ : {A B : Type 0} → Exec A → (A → Exec B) → Exec B
◌>>=◌ m f l = continue f (m l)

abbrev pub ◌>>◌ : {A B : Type 0} → Exec A → Exec B → Exec B
m >> n = m >>= λ _. n

abbrev pub pure : {A : Type 0} → A → Exec A
pure a l = (ok a, l)

abbrev pub raise : {A : Type 0} → Error → Exec A
raise e l = (err e, l)

-- `utils.TimestampNow` and `utils.NewPacketID`
abbrev pub timestamp_now : Outside → Exec Time
timestamp_now o l = (ok (o.clock l.calls), record l { calls = l.calls + 1 })

abbrev pub fresh_id : Outside → Exec String
fresh_id o l = (ok (o.new_packet_id l.calls), record l { calls = l.calls + 1 })

-- the end of an open stream
abbrev pub end_of_stream : Error
end_of_stream = external "EOF"

-- the settings that a client keeps
unfoldable pub with_defaults : Config → Config
with_defaults cfg = record cfg {
  protocol_name = if cfg.protocol_name == "" then "crabmq-qtt" else cfg.protocol_name;
  write_timeout = if leb_ℤ cfg.write_timeout (pos 0) then pos 5_000_000_000 else cfg.write_timeout;
  read_timeout = if leb_ℤ cfg.read_timeout (pos 0) then pos 45_000_000_000 else cfg.read_timeout;
}

-- `Dial`, on what quic-go answers to `DialAddr` and `OpenStreamSync`
unfoldable pub dial : (dialled opened : Option Error) → Config → Result Config
dial (some e) opened cfg = err (dial_quic e)
dial none (some e) cfg = err (open_stream e)
dial none none cfg = ok (with_defaults cfg)

encoded : Option Error → Packet → Link → Result (Unit {0}) × Link
encoded none packet l = (ok tt, record l { outgoing = l.outgoing ++ packet ∷ [] })
encoded (some e) packet l = (err e, l)

-- `Send`
unfoldable pub send : Outside → Packet → Exec (Unit {0})
unfolding encoded
send o packet l = encoded (o.send_fault l.calls) packet (record l { calls = l.calls + 1 })

received : List (Result Packet) → Exec Packet
received [] l = (err (read_failed end_of_stream), l)
received (err e ∷ rest) l = (err (read_failed e), record l { incoming = rest })
received (ok packet ∷ rest) l = (ok packet, record l { incoming = rest })

-- `ReadPacket`
unfoldable pub read_packet : Exec Packet
unfolding received
read_packet l = received l.incoming l

-- `Connect`
unfoldable pub connect : Outside → Config → (metadata : List (String × String)) → Exec Packet
connect o cfg metadata = do
  now ← timestamp_now o
  send o (record zero_packet {
    type = packet_connect;
    client_id = cfg.client_id;
    token = cfg.token;
    metadata = metadata;
    timestamp = now;
  })
  packet ← read_packet
  if packet.type == packet_conn_ack then pure packet else raise (expected_conn_ack packet.type)

-- `Publish`
unfoldable pub publish : Outside → Config → (topic : String) → ℤ → RawMessage → Exec (Unit {0})
publish o cfg topic qos payload = do
  id ← fresh_id o
  now ← timestamp_now o
  send o (record zero_packet {
    type = packet_publish;
    packet_id = id;
    client_id = cfg.client_id;
    topic = topic;
    qos = qos;
    payload = payload;
    timestamp = now;
  })

-- `Subscribe`
unfoldable pub subscribe : Outside → Config → List Subscription → Exec (Unit {0})
subscribe o cfg subscriptions = do
  id ← fresh_id o
  now ← timestamp_now o
  send o (record zero_packet {
    type = packet_subscribe;
    packet_id = id;
    client_id = cfg.client_id;
    subscriptions = subscriptions;
    timestamp = now;
  })

-- `SendPubAck`
unfoldable pub send_pub_ack : Outside → Config → String → Exec (Unit {0})
send_pub_ack o cfg packet_id = do
  now ← timestamp_now o
  send o (record zero_packet {
    type = packet_pub_ack;
    packet_id = packet_id;
    client_id = cfg.client_id;
    timestamp = now;
  })

-- `Ping`
unfoldable pub ping : Outside → Config → Exec (Unit {0})
ping o cfg = do
  now ← timestamp_now o
  send o (record zero_packet { type = packet_ping; client_id = cfg.client_id; timestamp = now })

-- `Close`
unfoldable pub close : Link → Link
close l = record l { closed = true }

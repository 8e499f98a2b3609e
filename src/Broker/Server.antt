-- ===== src/Broker/Server.antt =====
-- internal/broker/server/server.go: the handlers of a connection. `s` is the state of the process;
-- the log is left out.
pub mod Connection
pub mod Interleaved
pub mod Initial
use carbmq_core.Base.{
  ℕ, ◌+◌, ℤ, pos, negsuc, ltb_ℤ, int_eq, ◌+ℤ◌, String, Bool, true, false, ◌&&◌, not, List, [], ◌∷◌,
  Option, none, some, if◌then◌else◌, ◌==◌, length,
}
use carbmq_core.Errors.{
  Error, Result, ok, err, error_text, missing_subscriptions, missing_topic, read_connect,
  not_connect, missing_client_id, client_mismatch, send_connack, unsupported_packet,
}
use carbmq_core.Qtt.Packet.{
  Packet, Time, Subscription, is_zero, packet_connect, packet_publish, packet_pub_ack,
  packet_subscribe, packet_ping, packet_disconnect,
}
use carbmq_core.Qtt.Builders.{conn_ack, sub_ack, pub_ack, pong, error_packet}
use carbmq_core.Auth.Claims.{Claims}
use carbmq_core.Auth.Jwt.{parse}
use carbmq_core.Auth.Acl.{can_publish, can_subscribe}
use carbmq_core.Broker.Session.{Session, ConnId}
use carbmq_core.Broker.Session
use carbmq_core.Broker.Subscription
use carbmq_core.Broker.State.{Env, Server, Metrics, called, send, send_built, count, packet_out}
use carbmq_core.Broker.Router.{route}
use carbmq_core.Db.Tables.{Message}
use carbmq_core.Db.Messages.{save_message}
use carbmq_core.Queue.Persistent

-- the first filter that may not be subscribed to
unfoldable pub refused : Claims → List Subscription → Option Error
refused claims [] = none
refused claims (sub ∷ subs) = elim (can_subscribe claims sub.topic) [
  | some e ↦ some e
  | none ↦ refused claims subs
]

-- `s.metrics.PacketsOut.Inc()` behind a send that worked
pub counted_send : Option Error × Server → Option Error × Server
counted_send (some e, s) = (some e, s)
counted_send (none, s) = (none, count packet_out s)

pub is_empty {ℓ} : {A : Type ℓ} → List A → Bool
is_empty [] = true
is_empty (x ∷ xs) = false

-- the filters are stored with the registry, by one call
abbrev pub registered : String → List Subscription → Server → Server
registered client subs s = record s { subscriptions = Subscription.add client subs s.subscriptions }

-- and with the session, by the next
abbrev pub remembered : String → List Subscription → Server → Server
remembered client subs s = record s { sessions = Session.add_subscriptions client subs s.sessions }

pub subscribed : String → List Subscription → Server → Server
subscribed client subs s =
    count (λ m. record m { subscriptions = m.subscriptions + length subs })
      (remembered client subs (registered client subs s))

-- `handleSubscribe`
unfoldable pub handle_subscribe :
    Env → ConnId → String → Claims → Packet → Server → Option Error × Server
unfolding refused counted_send is_empty subscribed
handle_subscribe env conn client claims packet s =
    if is_empty packet.subscriptions
    then (some missing_subscriptions, s)
    else elim (refused claims packet.subscriptions) [
      | some e ↦ (some e, s)
      | none ↦ counted_send (
          send_built env conn (λ now. sub_ack now packet.packet_id)
            (subscribed client packet.subscriptions s))
    ]

-- The packet that is stored and routed: with an id, a time and the client's own id.
pub stamped : Env → String → Packet → Server → Packet × Server
stamped env client packet s =
    let fresh = packet.packet_id == "" in
    let s₁ = if fresh then called s else s in
    let timeless = is_zero packet.timestamp in
    (
      record packet {
        packet_id = if fresh then env.new_packet_id s.calls else packet.packet_id;
        timestamp = if timeless then env.clock s₁.calls else packet.timestamp;
        client_id = client;
      },
      if timeless then called s₁ else s₁,
    )

-- the row of the `messages` table
unfoldable pub inbound_message : Packet → Message
inbound_message packet = record {
  packet_id = packet.packet_id;
  client_id = packet.client_id;
  topic = packet.topic;
  qos = packet.qos;
  payload = packet.payload;
  packet_type = packet.type;
  direction = "inbound";
  timestamp = packet.timestamp;
  acknowledged = int_eq packet.qos (pos 0);
}

-- `s.store.SaveMessage`
unfoldable pub save : Env → Packet → Server → Option Error × Server
save env packet s =
    let (fault, tables) = save_message (env.db_fault s.calls) (inbound_message packet) s.tables in
    (fault, record s { tables = tables; calls = s.calls + 1 })

-- the end of `handlePublish`, behind the routing
acknowledged : Env → ConnId → Packet → (ℕ × Option Error) × Server → Option Error × Server
unfolding counted_send
acknowledged env conn packet ((_, some e), s) = (some e, s)
acknowledged env conn packet ((_, none), s) =
    if ltb_ℤ (pos 0) packet.qos
    then counted_send (send_built env conn (λ now. pub_ack now packet.packet_id) s)
    else (none, s)

-- behind `SaveMessage`
saved : Env → ConnId → Packet → Option Error × Server → Option Error × Server
unfolding acknowledged
saved env conn packet (some e, s) = (some e, s)
saved env conn packet (none, s) =
    acknowledged env conn packet
      (route env packet (count (λ m. record m { publishes = m.publishes + 1 }) s))

-- `handlePublish`
unfoldable pub handle_publish :
    Env → ConnId → String → Claims → Packet → Server → Option Error × Server
unfolding stamped saved
handle_publish env conn client claims packet s =
    if packet.topic == "" then (some missing_topic, s) else elim (can_publish claims packet.topic) [
      | some e ↦ (some e, s)
      | none ↦
          let (packet', s') = stamped env client packet s in
          saved env conn packet' (save env packet' s')
    ]

-- What follows `s.auth.Parse` in `authenticate`: the client's id, or why there is none.
unfoldable pub identify : Packet → Claims → Result String
identify packet claims =
    let client = if packet.client_id == "" then claims.client_id else packet.client_id in
    if client == ""
    then err missing_client_id
    else if claims.role == "device" && not (claims.device_id == client)
    then err (client_mismatch claims.device_id client)
    else ok client

-- `s.metrics.ActiveSessions.Set(n)`
abbrev pub set_gauge : ℕ → Server → Server
set_gauge n s = record s { metrics = record s.metrics { active_sessions = n } }

-- `OnlineCount` and `Set`, two calls
abbrev pub set_active : Server → Server
set_active s = set_gauge (Session.online_count s.sessions) s

-- `UpsertConnected`. A number is kept for each reading of the clock that the program may make: two for
-- the session that it passes, and two in `UpsertConnected`, the first of which is made only where
-- `ConnectedAt` is zero.
abbrev pub upserted : Env → ConnId → String → Claims → Server → (Bool × List Subscription) × Server
upserted env conn client claims s =
    let (r, sessions) =
      Session.upsert_connected
        (record {
          client_id = client;
          device_id = claims.device_id;
          role = claims.role;
          claims = claims;
          conn = some conn;
          online = false;
          subscriptions = [];
          connected_at = env.clock s.calls;
          last_seen_at = env.clock (s.calls + 1);
        })
        (env.clock (s.calls + 2)) (env.clock (s.calls + 3)) s.sessions in
    (r, record s { sessions = sessions; calls = s.calls + 4 })

-- The session is stored, and the gauge set.
pub established : Env → ConnId → String → Claims → Server → (Bool × List Subscription) × Server
established env conn client claims s =
    let (r, s') = upserted env conn client claims s in (r, set_active s')

-- the answer to a client that was accepted
accepted :
    String
    → Claims
    → List Subscription
    → Option Error × Server
    → Result (String × Claims × List Subscription) × Server
accepted client claims subs (some e, s) = (err (send_connack e), s)
accepted client claims subs (none, s) = (ok (client, claims, subs), count packet_out s)

-- the rest of `authenticate`, for a client that is known
pub welcome :
    Env → ConnId → String → Claims → Server → Result (String × Claims × List Subscription) × Server
unfolding established accepted
welcome env conn client claims s =
    let (r, s') = established env conn client claims s in
    accepted client claims r.1 (send_built env conn (λ now. conn_ack now "accepted" r.0) s')

-- the checks of `authenticate`, before any state changes
unfoldable pub checked : Env → Result Packet → Server → Result (String × Claims)
checked env (err e) s = err (read_connect e)
checked env (ok packet) s =
    if not (packet.type == packet_connect)
    then err not_connect
    else elim (parse env.jwt s.auth (env.clock s.calls) packet.token) [
      | err e ↦ err e
      | ok claims ↦ elim (identify packet claims) [
        | err e ↦ err e
        | ok client ↦ ok (client, claims)
      ]
    ]

-- `authenticate`, on what `conn.Receive` gave
unfoldable pub authenticate :
    Env → ConnId → Result Packet → Server → Result (String × Claims × List Subscription) × Server
unfolding welcome
authenticate env conn received s = elim (checked env received s) [
  | err e ↦ (err e, called s)
  | ok (client, claims) ↦ welcome env conn client claims (called s)
]

-- the loop of `deliverOffline`
unfoldable pub send_all : Env → ConnId → List Packet → Server → Option Error × Server
send_all env conn [] s = (none, s)
send_all env conn (packet ∷ packets) s =
    let (fault, s') = send env conn packet s in
    elim fault [ some e ↦ (some e, s') | none ↦ send_all env conn packets (count packet_out s') ]

-- `deliverOffline`
unfoldable pub deliver_offline : Env → String → ConnId → Server → Option Error × Server
deliver_offline env client conn s =
    elim (Persistent.pending env.jsonb (env.db_fault s.calls) client s.tables) [
      | err e ↦ (some e, called s)
      | ok packets ↦ send_all env conn packets (called s)
    ]

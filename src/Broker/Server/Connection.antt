-- ===== src/Broker/Server/Connection.antt =====
-- The life of a connection, `handleConnection` of internal/broker/server/server.go.
pub mod Consistent
pub mod Quiet
pub mod Handlers
pub mod Rounds
pub mod Accept
pub mod Refusals
pub mod Delivered
pub mod Arrives
pub mod Steps
pub mod Payloads
pub mod PayloadRounds
pub mod Carried
use carbmq_core.Base.{
  ℕ, ◌+◌, ℤ, negsuc, ◌+ℤ◌, String, Bool, true, false, List, [], ◌∷◌, Option, none, some,
  if◌then◌else◌, ◌==◌,
}
use carbmq_core.Errors.{Error, Result, ok, err, error_text, unsupported_packet}
use carbmq_core.Qtt.Packet.{
  Packet, Subscription, packet_publish, packet_pub_ack, packet_subscribe, packet_ping,
  packet_disconnect,
}
use carbmq_core.Qtt.Builders.{pong, error_packet}
use carbmq_core.Auth.Claims.{Claims}
use carbmq_core.Broker.Session.{ConnId}
use carbmq_core.Broker.Session
use carbmq_core.Broker.Limiter.{allow}
use carbmq_core.Broker.State.{Env, Server, Metrics, called, send_built, count, packet_out}
use carbmq_core.Broker.Server.{
  handle_subscribe, handle_publish, authenticate, deliver_offline, set_active,
}
use carbmq_core.Db.Messages.{mark_message_acknowledged}
use carbmq_core.Queue.Persistent

-- `_ = conn.Send(ctx, packets.Error(code, message))`
unfoldable pub send_error : Env → ConnId → String → String → Server → Server
send_error env conn code message s =
    (send_built env conn (λ now. error_packet now code message) s).1

-- a handler's error is sent back, and the loop goes on
reported : Env → ConnId → String → Option Error × Server → Bool × Server
reported env conn code (none, s) = (true, s)
reported env conn code (some e, s) = (true, send_error env conn code (error_text e) s)

-- a pong that cannot be sent ends the loop
ponged : Option Error × Server → Bool × Server
ponged (none, s) = (true, count packet_out s)
ponged (some e, s) = (false, s)

-- `s.store.MarkMessageAcknowledged`; its error is only logged
marked : Env → String → Server → Server
marked env packet_id s = record s {
  tables = (mark_message_acknowledged (env.db_fault s.calls) packet_id s.tables).1;
  calls = s.calls + 1;
}

-- behind `s.queue.Ack`; its error is only logged
acked : Option Error → Server → Server
acked (some e) s = s
acked none s = count (λ m. record m { offline_queue = m.offline_queue +ℤ negsuc 0 }) s

queue_ack : Env → String → Server → Server
unfolding acked
queue_ack env packet_id s =
    let (fault, tables) = Persistent.ack (env.db_fault s.calls) packet_id s.tables in
    acked fault (record s { tables = tables; calls = s.calls + 1 })

-- the `switch` on the type of the packet; the answer says whether the loop goes on
unfoldable pub dispatch : Env → ConnId → String → Claims → Packet → Server → Bool × Server
unfolding reported ponged marked queue_ack
dispatch env conn client claims packet s =
    if packet.type == packet_ping
    then ponged (send_built env conn pong s)
    else if packet.type == packet_subscribe
    then reported env conn "SUBSCRIBE_FAILED" (handle_subscribe env conn client claims packet s)
    else if packet.type == packet_publish
    then reported env conn "PUBLISH_FAILED" (handle_publish env conn client claims packet s)
    else if packet.type == packet_pub_ack
    then (true, queue_ack env packet.packet_id (marked env packet.packet_id s))
    else if packet.type == packet_disconnect
    then (false, s)
    else (
      true,
      send_error env conn "UNSUPPORTED_PACKET" (error_text (unsupported_packet packet.type)) s,
    )

-- The counter and the session's time, at every packet that is received.
unfoldable pub noticed : Env → String → Server → Server
noticed env client s = record s {
  metrics = record s.metrics { packets_in = s.metrics.packets_in + 1 };
  sessions = Session.touch client (env.clock s.calls) s.sessions;
  calls = s.calls + 1;
}

-- behind `s.limiter.Allow`
limited : Env → ConnId → String → Claims → Packet → Bool → Server → Bool × Server
limited env conn client claims packet true s = dispatch env conn client claims packet s
limited env conn client claims packet false s = (
  true,
  send_error env conn "RATE_LIMITED" "too many packets"
      (count (λ m. record m { rate_limited = m.rate_limited + 1 }) s),
)

-- One round of the loop, for a packet that was received.
unfoldable pub handle_packet : Env → ConnId → String → Claims → Packet → Server → Bool × Server
unfolding limited noticed
handle_packet env conn client claims packet s =
    let s₁ = noticed env client s in
    let (passed, limiter) = allow (env.clock s₁.calls) client s₁.limiter in
    limited env conn client claims packet passed
      (record s₁ { limiter = limiter; calls = s₁.calls + 1 })

-- `Disconnect`
abbrev pub disconnected : Env → String → Server → Server
disconnected env client s = record s {
  sessions = Session.disconnect client (env.clock s.calls) s.sessions;
  calls = s.calls + 1;
}

-- The deferred calls at the end of the loop.
unfoldable pub finish : Env → String → Server → Server
finish env client s = set_active (disconnected env client s)

-- What precedes the loop: the client that was accepted, if it was, after its pending packets were
-- sent; a client that was not is told so.
opened :
    Env
    → ConnId
    → Result (String × Claims × List Subscription) × Server
    → Option (String × Claims) × Server
opened env conn (err e, s) = (
  none,
  send_error env conn "AUTH_FAILED" (error_text e)
      (count (λ m. record m { auth_failures = m.auth_failures + 1 }) s),
)
opened env conn (ok (client, claims, _), s) =
    (some (client, claims), (deliver_offline env client conn s).1)

unfoldable pub start : Env → ConnId → Result Packet → Server → Option (String × Claims) × Server
unfolding opened
start env conn received s = opened env conn (authenticate env conn received s)

-- The loop, over what `conn.Receive` gives; where that fails, or the list ends, the connection ends.
unfoldable pub serve : Env → ConnId → String → Claims → List (Result Packet) → Server → Server
serve env conn client claims [] s = finish env client s
serve env conn client claims (err e ∷ packets) s = finish env client s
serve env conn client claims (ok packet ∷ packets) s =
    let (goes_on, s') = handle_packet env conn client claims packet s in
    elim goes_on [ true ↦ serve env conn client claims packets s' | false ↦ finish env client s' ]

-- `handleConnection`, for a connection that nothing else interrupts.
unfoldable pub handle_connection :
    Env → ConnId → Result Packet → List (Result Packet) → Server → Server
handle_connection env conn first packets s =
    let (client, s') = start env conn first s in
    elim client [
      | none ↦ s'
      | some (client_id, claims) ↦ serve env conn client_id claims packets s'
    ]

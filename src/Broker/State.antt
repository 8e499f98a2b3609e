-- ===== src/Broker/State.antt =====
-- The state of the broker process: `Server` of internal/broker/server/server.go with the counters of
-- internal/metrics/metrics.go, and what it asks of its surroundings.
use carbmq_core.Base.{pos, ℕ, ◌+◌, ℤ, String, List, [], ◌∷◌, ◌++◌, Option, none, some, ◌≡◌}
use carbmq_core.Errors.{Error}
use carbmq_core.Qtt.Packet.{Packet, Time, RawMessage}
use carbmq_core.Auth.Jwt.{JwtLib, Service}
use carbmq_core.Broker.Session.{ConnId}
use carbmq_core.Broker.Session
use carbmq_core.Broker.Subscription.{Registry}
use carbmq_core.Broker.Limiter.{RateLimiter}
use carbmq_core.Db.Tables.{Tables}

-- `Registry` of internal/metrics/metrics.go. The gauges are set, or moved by one.
pub record Metrics : Type 0 where
  pub packets_in : ℕ
  pub packets_out : ℕ
  pub publishes : ℕ
  pub subscriptions : ℕ
  pub auth_failures : ℕ
  pub rate_limited : ℕ
  pub failed_deliveries : ℕ
  pub active_sessions : ℕ
  pub offline_queue : ℤ

-- the counters and gauges that `New` of internal/metrics/metrics.go makes
unfoldable pub new_metrics : Metrics
new_metrics = record {
  packets_in = 0;
  packets_out = 0;
  publishes = 0;
  subscriptions = 0;
  auth_failures = 0;
  rate_limited = 0;
  failed_deliveries = 0;
  active_sessions = 0;
  offline_queue = pos 0;
}

-- What is outside: the answer to the n-th call that leaves the process. `db_fault` and `send_fault`
-- are the errors of the database and of a connection; `client_order` is the order in which Go's
-- `range` visits the keys of a map; `jsonb` is the text that Postgres gives back of a column of type
-- JSONB for the text that was stored, which has another layout and order of keys.
pub record Env : Type 0 where
  pub clock : ℕ → Time
  pub new_packet_id : ℕ → String
  pub db_fault : ℕ → Option Error
  pub send_fault : ℕ → Option Error
  pub client_order : ℕ → List String → List String
  pub jwt : JwtLib
  pub jsonb : RawMessage → RawMessage

-- `calls` counts the calls so far; `sent` lists what was sent, on which connection, in order.
pub record Server : Type 0 where
  pub auth : Service
  pub sessions : Session.Store
  pub subscriptions : Registry
  pub tables : Tables
  pub metrics : Metrics
  pub limiter : RateLimiter
  pub calls : ℕ
  pub sent : List (ConnId × Packet)

-- every send and every statement works
pub record Works (env : Env) : Type 0 where
  pub sends : (n : ℕ) → env.send_fault n ≡ none
  pub stores : (n : ℕ) → env.db_fault n ≡ none

abbrev pub called : Server → Server
called s = record s { calls = s.calls + 1 }

-- `PacketConn.Send`
send_answered : Option Error → ConnId → Packet → Server → Option Error × Server
send_answered none conn packet s = (none, record s { sent = s.sent ++ (conn, packet) ∷ [] })
send_answered (some e) conn packet s = (some e, s)

unfoldable pub send : Env → ConnId → Packet → Server → Option Error × Server
unfolding send_answered
send env conn packet s = send_answered (env.send_fault s.calls) conn packet (called s)

-- An answer that `packets` builds, which reads the clock, is sent.
unfoldable pub send_built : Env → ConnId → (Time → Packet) → Server → Option Error × Server
send_built env conn build s = send env conn (build (env.clock s.calls)) (called s)

abbrev pub count : (Metrics → Metrics) → Server → Server
count f s = record s { metrics = f s.metrics }

abbrev pub packet_out : Metrics → Metrics
packet_out m = record m { packets_out = m.packets_out + 1 }

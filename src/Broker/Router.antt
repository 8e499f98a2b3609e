-- ===== src/Broker/Router.antt =====
-- internal/broker/router/router.go: fan-out of a published packet.
pub mod Delivery
pub mod Outcomes
pub mod Fanout
pub mod Queued
pub mod Reach
pub mod Live
pub mod Payloads
use carbmq_core.Base.{
  ℕ, ◌+◌, ℤ, pos, ltb_ℤ, ◌+ℤ◌, String, Bool, true, false, List, [], ◌∷◌, Option, none, some,
  if◌then◌else◌,
}
use carbmq_core.Errors.{Error, Result, ok, err}
use carbmq_core.Qtt.Packet.{Packet, clone}
use carbmq_core.Broker.Session.{Session, ConnId, get}
use carbmq_core.Broker.Subscription.{Match}
use carbmq_core.Broker.Subscription
use carbmq_core.Broker.State.{Env, Server, Metrics, called, send, count, packet_out}
use carbmq_core.Queue.Persistent

-- the copy for a subscriber, at the lower of the two qualities of service
unfoldable pub outbound_for : Packet → Match → Packet
outbound_for packet match =
    let outbound = clone packet in
    if ltb_ℤ match.qos outbound.qos then record outbound { qos = match.qos } else outbound

-- `OfflineQueue.Enqueue`: a reading of the clock and a statement
unfoldable pub enqueue : Env → String → Packet → Server → Option Error × Server
enqueue env client packet s =
    let (fault, tables) =
      Persistent.enqueue (env.db_fault s.calls) (env.clock s.calls) client packet s.tables in
    (fault, record s { tables = tables; calls = s.calls + 1 })

-- the end of `if queueErr := r.offline.Enqueue(…)`
enqueued : Option Error × Server → Result Bool × Server
enqueued (some e, s) = (err e, s)
enqueued (none, s) =
    (ok false, count (λ m. record m { offline_queue = m.offline_queue +ℤ pos 1 }) s)

-- a packet that was not delivered is queued, unless its quality of service is 0
unfoldable pub queue_offline : Env → String → Packet → Server → Result Bool × Server
unfolding enqueued
queue_offline env client outbound s =
    if ltb_ℤ (pos 0) outbound.qos then enqueued (enqueue env client outbound s) else (ok false, s)

-- what follows `target.Conn.Send`
after_send : Env → String → Packet → Option Error × Server → Result Bool × Server
unfolding queue_offline
after_send env client outbound (none, s) = (ok true, count packet_out s)
after_send env client outbound (some e, s) =
    queue_offline env client outbound
      (count (λ m. record m { failed_deliveries = m.failed_deliveries + 1 }) s)

-- the connection of a session that is online, if it has one
abbrev pub reachable : Session → Option ConnId
reachable target = if target.online then target.conn else none

unfoldable pub deliver_to : Env → Session → Packet → Server → Result Bool × Server
unfolding after_send
deliver_to env target outbound s = elim (reachable target) [
  | some conn ↦ after_send env target.client_id outbound (send env conn outbound s)
  | none ↦ queue_offline env target.client_id outbound s
]

-- One round of the loop of `Route`; the answer says whether the packet was delivered.
unfoldable pub deliver : Env → Packet → Match → Server → Result Bool × Server
deliver env packet match s = elim (get match.client_id s.sessions) [
  | none ↦ (ok false, s)
  | some target ↦ deliver_to env target (outbound_for packet match) s
]

abbrev pub add_delivered : Bool → ℕ → ℕ
add_delivered d n = if d then n + 1 else n

-- how the loop goes on after a round: an error of the queue ends it
resume :
    (ℕ → Server → (ℕ × Option Error) × Server)
    → ℕ
    → Result Bool × Server
    → (ℕ × Option Error) × Server
resume rest delivered (err e, s) = ((delivered, some e), s)
resume rest delivered (ok d, s) = rest (add_delivered d delivered) s

-- The loop of `Route`.
unfoldable pub route_matches : Env → Packet → List Match → ℕ → Server → (ℕ × Option Error) × Server
unfolding resume
route_matches env packet [] delivered s = ((delivered, none), s)
route_matches env packet (match ∷ matches) delivered s =
    resume (route_matches env packet matches) delivered (deliver env packet match s)

-- `Route`
unfoldable pub route : Env → Packet → Server → (ℕ × Option Error) × Server
route env packet s =
    let matches = Subscription.match (env.client_order s.calls) packet.topic s.subscriptions in
    route_matches env packet matches 0 (called s)

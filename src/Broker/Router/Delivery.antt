-- ===== src/Broker/Router/Delivery.antt =====
-- What routing sends, queues and leaves alone.
use carbmq_core.Base.{◌+◌, ◌≤ℤ◌, String, Option, ◌≡◌, refl, inl, inr, arith, Option-cases, ◌∙◌}
use carbmq_core.Errors.{Error}
use carbmq_core.Qtt.Packet.{Packet, clone_lem}
use carbmq_core.Broker.Session.{Session, get}
use carbmq_core.Broker.Subscription.{Match}
use carbmq_core.Broker.State.{Env, Server, send, called}
use carbmq_core.Broker.Router.{outbound_for, enqueue, queue_offline, reachable, deliver_to, deliver}
use carbmq_core.Queue.Persistent
use carbmq_core.Db.Tables.{OfflineMessage, Tables}
use carbmq_core.Db.Offline.{enqueue_offline_message}
use carbmq_core.Db.Offline.Laws.{IsKeyed, enqueue_offline_message-IsKeyed}

-- A copy goes out at a quality of service that neither the publisher nor the subscriber exceeds, and
-- is the packet otherwise.
pub outbound_for_lem :
    (packet : Packet) (match : Match)
    → let out = outbound_for packet match in
      (out.qos ≤ℤ packet.qos) × (out.qos ≤ℤ match.qos) × (record out { qos = packet.qos } ≡ packet)
unfolding outbound_for
outbound_for_lem packet match = ground (arith, clone_lem packet)

-- What routing leaves as it was.
pub record Keeps (s s' : Server) : Type 0 where
  pub auth : s'.auth ≡ s.auth
  pub sessions : s'.sessions ≡ s.sessions
  pub subscriptions : s'.subscriptions ≡ s.subscriptions
  pub limiter : s'.limiter ≡ s.limiter
  pub devices : s'.tables.devices ≡ s.tables.devices
  pub messages : s'.tables.messages ≡ s.tables.messages
  pub active : s'.metrics.active_sessions ≡ s.metrics.active_sessions
  pub keyed : IsKeyed s.tables.offline_messages → IsKeyed s'.tables.offline_messages

pub Keeps-refl : (s : Server) → Keeps s s
Keeps-refl s = ground arith

pub Keeps-trans : {s t u : Server} → Keeps s t → Keeps t u → Keeps s u
Keeps-trans h k = record {
  auth = k.auth ∙ h.auth;
  sessions = k.sessions ∙ h.sessions;
  subscriptions = k.subscriptions ∙ h.subscriptions;
  limiter = k.limiter ∙ h.limiter;
  devices = k.devices ∙ h.devices;
  messages = k.messages ∙ h.messages;
  active = k.active ∙ h.active;
  keyed = λ u. k.keyed (h.keyed u);
}

enqueue_offline_message-tables :
    (fault : Option Error) (m : OfflineMessage) (t : Tables)
    → let t' = (enqueue_offline_message fault m t).1 in
      (t'.devices ≡ t.devices) × (t'.messages ≡ t.messages)
unfolding enqueue_offline_message
enqueue_offline_message-tables fault m t = ground arith

enqueue-Keeps :
    (env : Env) (client : String) (p : Packet) (s : Server) → Keeps s (enqueue env client p s).1
unfolding enqueue Persistent.enqueue
enqueue-Keeps env client p s =
    let row = Persistent.to_offline_message (env.clock s.calls) client p in
    let (devices, messages) = enqueue_offline_message-tables (env.db_fault s.calls) row s.tables in
    record {
      auth = refl;
      sessions = refl;
      subscriptions = refl;
      limiter = refl;
      devices = devices;
      messages = messages;
      active = refl;
      keyed = enqueue_offline_message-IsKeyed (env.db_fault s.calls) row s.tables;
    }

queue_offline-Keeps :
    (env : Env) (client : String) (p : Packet) (s : Server)
    → Keeps s (queue_offline env client p s).1
unfolding queue_offline
queue_offline-Keeps env client p s = ground (arith, enqueue-Keeps env client p s)

-- the counters after a send that failed
abbrev pub failed : Server → Server
failed s = record s {
  metrics = record s.metrics { failed_deliveries = s.metrics.failed_deliveries + 1 };
}

deliver_to-Keeps :
    (env : Env) (target : Session) (p : Packet) (s : Server) → Keeps s (deliver_to env target p s).1
unfolding deliver_to send
deliver_to-Keeps env target p s = elim (Option-cases (reachable target)) [
  | inl away ↦ rw (away, deliver_to) (queue_offline-Keeps env target.client_id p s)
  | inr (conn, there) ↦ elim (Option-cases (env.send_fault s.calls)) [
    | inl fine ↦ ground (arith, there, fine)
    | inr (e, fault) ↦
        ground (arith, there, fault, queue_offline-Keeps env target.client_id p (failed (called s)))
  ]
]

pub deliver-Keeps :
    (env : Env) (p : Packet) (m : Match) (s : Server) → Keeps s (deliver env p m s).1
unfolding deliver
deliver-Keeps env p m s = elim (Option-cases (get m.client_id s.sessions)) [
  | inl absent ↦ ground (arith, absent)
  | inr (target, found) ↦ ground (arith, found, deliver_to-Keeps env target (outbound_for p m) s)
]

-- ===== src/Broker/Router/Outcomes.antt =====
-- How one round of routing ends.
use carbmq_core.Base.{
  ◌+◌, pos, ltb_ℤ, String, Bool, true, false, [], ◌∷◌, ◌++◌, Option, none, some, ◌≡◌, refl, ◌⊎◌,
  inl, inr, arith, Option-cases, Bool-cases, ap, ◌∙◌,
}
use carbmq_core.Errors.{Error, Result, ok, err}
use carbmq_core.Qtt.Packet.{Packet}
use carbmq_core.Broker.Session.{Session, ConnId, get}
use carbmq_core.Broker.Subscription.{Match}
use carbmq_core.Broker.State.{Env, Server, Metrics, send, called}
use carbmq_core.Broker.Router.{
  outbound_for, enqueue, enqueued, after_send, queue_offline, reachable, deliver_to, deliver,
}
use carbmq_core.Broker.Router.Delivery.{failed}
use carbmq_core.Queue.Persistent
use carbmq_core.Db.Offline.{has_packet, offline_row, enqueue_offline_message}
use carbmq_core.Db.Offline.Laws.{has_packet-insert_offline, has_packet-insert_offline_mono}

-- A row with the packet's id is in the offline table.
abbrev pub IsStored : String → Server → Type 0
IsStored id s = has_packet id s.tables.offline_messages ≡ true

-- The connection that a match leads to, if its client is online.
abbrev pub target_conn : Option Session → Option ConnId
target_conn none = none
target_conn (some target) = reachable target

-- How the round ended, by its answer: the packet was sent on the client's connection; or it was not
-- sent, and it is stored, unless its quality of service is 0 or the client is unknown; or the queue
-- failed.
pub data Outcome (s s' : Server) (out : Packet) (target : Option Session)
    : Result Bool → Type 0 where
  delivered :
      (c : ConnId)
      → target_conn target ≡ some c
      → s'.sent ≡ s.sent ++ (c, out) ∷ []
      → s'.metrics.packets_out ≡ s.metrics.packets_out + 1
      → Outcome s s' out target (ok true)
  kept :
      s'.sent ≡ s.sent
      → s'.metrics.packets_out ≡ s.metrics.packets_out
      → (target ≡ none) ⊎ (ltb_ℤ (pos 0) out.qos ≡ false) ⊎ IsStored out.packet_id s'
      → Outcome s s' out target (ok false)
  broken :
      (e : Error)
      → s'.sent ≡ s.sent
      → s'.metrics.packets_out ≡ s.metrics.packets_out
      → Outcome s s' out target (err e)

-- What an attempt to queue does: it sends nothing, and stores the packet unless it fails.
abbrev Queues : Server → String → Option Error × Server → Type 0
Queues s id (fault, s') =
    (s'.sent ≡ s.sent) × (s'.metrics ≡ s.metrics) × ((fault ≡ none) → IsStored id s')

enqueue-Queues :
    (env : Env) (client : String) (p : Packet) (s : Server)
    → Queues s p.packet_id (enqueue env client p s)
unfolding enqueue Persistent.enqueue enqueue_offline_message Persistent.to_offline_message
    offline_row
enqueue-Queues env client p s = elim (Option-cases (env.db_fault s.calls)) [
  | inl fine ↦
      let row = offline_row (Persistent.to_offline_message (env.clock s.calls) client p) in
      rw fine (refl, refl, λ _. has_packet-insert_offline row s.tables.offline_messages)
  | inr (e, fault) ↦ rw fault (refl, refl, λ h. cc)
]

enqueued-Outcome :
    (s : Server) (out : Packet) (target : Option Session) (r : Option Error × Server)
    → Queues s out.packet_id r
    → Outcome s (enqueued r).1 out target (enqueued r).0
unfolding enqueued
enqueued-Outcome s out target (some e, s') (same, counts, _) =
    broken e same (ap (λ (m : Metrics). m.packets_out) counts)
enqueued-Outcome s out target (none, s') (same, counts, stored) =
    kept same (ap (λ (m : Metrics). m.packets_out) counts) (inr (inr (stored refl)))

queue_offline-Outcome :
    (env : Env) (client : String) (p : Packet) (s : Server) (target : Option Session)
    → Outcome s (queue_offline env client p s).1 p target (queue_offline env client p s).0
unfolding queue_offline
queue_offline-Outcome env client p s target = elim (Bool-cases (ltb_ℤ (pos 0) p.qos)) [
  | inl wanted ↦
      rw (wanted)
        (enqueued-Outcome s p target (enqueue env client p s) (enqueue-Queues env client p s))
  | inr unwanted ↦ rw unwanted (kept refl refl (inr (inl unwanted)))
]

-- what a send did
abbrev Sends : Server → ConnId → Packet → Option Error × Server → Type 0
Sends s c p (none, s') =
    (s'.sent ≡ s.sent ++ (c, p) ∷ []) × (s'.metrics ≡ s.metrics) × (s'.tables ≡ s.tables)
Sends s c p (some e, s') = (s'.sent ≡ s.sent) × (s'.metrics ≡ s.metrics) × (s'.tables ≡ s.tables)

send-Sends : (env : Env) (c : ConnId) (p : Packet) (s : Server) → Sends s c p (send env c p s)
unfolding send
send-Sends env c p s = elim (Option-cases (env.send_fault s.calls)) [
  | inl fine ↦ rw fine (refl, refl, refl)
  | inr (e, fault) ↦ rw fault (refl, refl, refl)
]

-- An outcome does not depend on what the state held but for what was sent and counted.
Outcome-from :
    (s t s' : Server) (out : Packet) (target : Option Session) {r : Result Bool}
    → t.sent ≡ s.sent
    → t.metrics.packets_out ≡ s.metrics.packets_out
    → Outcome t s' out target r
    → Outcome s s' out target r
Outcome-from s t s' out target a b (delivered c to grows counts) =
    delivered c to (grows ∙ ap (λ l. l ++ (c, out) ∷ []) a) (counts ∙ ap (λ n. n + 1) b)
Outcome-from s t s' out target a b (kept same counts why) = kept (same ∙ a) (counts ∙ b) why
Outcome-from s t s' out target a b (broken e same counts) = broken e (same ∙ a) (counts ∙ b)

after_send-Outcome :
    (env : Env) (client : String) (out : Packet) (s : Server) (target : Option Session) (c : ConnId)
    (r : Option Error × Server)
    → target_conn target ≡ some c
    → Sends s c out r
    → Outcome s (after_send env client out r).1 out target (after_send env client out r).0
unfolding after_send
after_send-Outcome env client out s target c (none, s') to (grows, counts, _) =
    delivered c to grows (ap (λ (m : Metrics). m.packets_out + 1) counts)
after_send-Outcome env client out s target c (some e, s') to (same, counts, _) =
    Outcome-from s (failed s') _ out target same (ap (λ (m : Metrics). m.packets_out) counts)
      (queue_offline-Outcome env client out (failed s') target)

deliver_to-Outcome :
    (env : Env) (target : Session) (out : Packet) (s : Server)
    → Outcome s (deliver_to env target out s).1 out (some target) (deliver_to env target out s).0
unfolding deliver_to
deliver_to-Outcome env target out s = elim (Option-cases (reachable target)) [
  | inl away ↦
      rw (away, deliver_to) (queue_offline-Outcome env target.client_id out s (some target))
  | inr (c, there) ↦
      rw (there, deliver_to)
        (after_send-Outcome env target.client_id out s (some target) c (send env c out s) there
          (send-Sends env c out s))
]

-- Every round ends in one of the three ways.
pub deliver-Outcome :
    (env : Env) (p : Packet) (m : Match) (s : Server)
    → Outcome s
        (deliver env p m s).1
        (outbound_for p m)
        (get m.client_id s.sessions)
        (deliver env p m s).0
unfolding deliver
deliver-Outcome env p m s = elim (Option-cases (get m.client_id s.sessions)) [
  | inl absent ↦ rw (absent, deliver) (kept refl refl (inl refl))
  | inr (target, found) ↦ rw (found, deliver) (deliver_to-Outcome env target (outbound_for p m) s)
]

enqueue-IsStored :
    (env : Env) (client : String) (p : Packet) (s : Server) (id : String)
    → IsStored id s
    → IsStored id (enqueue env client p s).1
unfolding enqueue Persistent.enqueue enqueue_offline_message Persistent.to_offline_message
    offline_row
enqueue-IsStored env client p s id h = elim (Option-cases (env.db_fault s.calls)) [
  | inl fine ↦
      let row = offline_row (Persistent.to_offline_message (env.clock s.calls) client p) in
      rw fine (has_packet-insert_offline_mono id row s.tables.offline_messages h)
  | inr (e, fault) ↦ rw fault h
]

queue_offline-IsStored :
    (env : Env) (client : String) (p : Packet) (s : Server) (id : String)
    → IsStored id s
    → IsStored id (queue_offline env client p s).1
unfolding queue_offline
queue_offline-IsStored env client p s id h = ground (arith, h, enqueue-IsStored env client p s id h)

deliver_to-IsStored :
    (env : Env) (target : Session) (p : Packet) (s : Server) (id : String)
    → IsStored id s
    → IsStored id (deliver_to env target p s).1
unfolding deliver_to send
deliver_to-IsStored env target p s id h = elim (Option-cases (reachable target)) [
  | inl away ↦ rw (away, deliver_to) (queue_offline-IsStored env target.client_id p s id h)
  | inr (c, there) ↦ elim (Option-cases (env.send_fault s.calls)) [
    | inl fine ↦ ground (arith, there, fine, h)
    | inr (e, fault) ↦ ground (
      arith,
      there,
      fault,
      queue_offline-IsStored env target.client_id p (failed (called s)) id h,
    )
  ]
]

-- Rows are never taken away by routing.
pub deliver-IsStored :
    (env : Env) (p : Packet) (m : Match) (s : Server) (id : String)
    → IsStored id s
    → IsStored id (deliver env p m s).1
unfolding deliver
deliver-IsStored env p m s id h = elim (Option-cases (get m.client_id s.sessions)) [
  | inl absent ↦ ground (arith, absent, h)
  | inr (target, found) ↦
      ground (arith, found, deliver_to-IsStored env target (outbound_for p m) s id h)
]

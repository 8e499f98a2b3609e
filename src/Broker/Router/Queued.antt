-- ===== src/Broker/Router/Queued.antt =====
-- Whose rows routing leaves in the offline queue.
use mathlib.Core.List.{Memᴰ}
use carbmq_core.Base.{
  ℕ, pos, ltb_ℤ, String, Bool, true, List, [], ◌∷◌, ◌++◌, Option, none, some, ◌≡◌, refl, ◌⊎◌, inl,
  inr, subst, Bool-cases, Option-cases, ◌==◌, eq_iff,
}
use carbmq_core.Errors.{Error, Result, ok, err}
use carbmq_core.Qtt.Packet.{Packet, Time}
use carbmq_core.Broker.Session.{Session, ConnId, get}
use carbmq_core.Broker.Session
use carbmq_core.Broker.Subscription.{Match}
use carbmq_core.Broker.State.{Env, Server, send}
use carbmq_core.Broker.Router.{
  outbound_for, enqueue, enqueued, queue_offline, after_send, reachable, deliver_to, deliver,
  resume, route_matches,
}
use carbmq_core.Broker.Router.Delivery.{deliver-Keeps}
use carbmq_core.Db.Tables.{OfflineMessage}
use carbmq_core.Db.Offline.{has_packet, insert_offline, offline_row, enqueue_offline_message}
use carbmq_core.Queue.Persistent

-- the rows of the offline queue
abbrev pub rows_of : Server → List OfflineMessage
rows_of s = s.tables.offline_messages

-- the row of a packet that is queued for a client
abbrev pub queued_row : Time → String → Packet → OfflineMessage
queued_row now client q = offline_row (Persistent.to_offline_message now client q)

-- Every row was there before, or is the packet's for the client.
abbrev Adds : Server → String → Packet → Server → Type 0
Adds s client q s' =
    (m : OfflineMessage)
    → Memᴰ m (rows_of s')
    → Memᴰ m (rows_of s) ⊎ ((now : Time) × (m ≡ queued_row now client q))

pub has_packet-mem :
    (id : String) (rows : List OfflineMessage)
    → has_packet id rows ≡ true
    → (m : OfflineMessage) × Memᴰ m rows × (m.packet_id ≡ id)
unfolding has_packet
has_packet-mem id [] h = cc
has_packet-mem id (r ∷ rows) h = elim (Bool-cases (r.packet_id == id)) [
  | inl same ↦ (r, Memᴰ.head refl, (eq_iff r.packet_id id).0 same)
  | inr other ↦
      let (m, listed, is) = has_packet-mem id rows (rw (has_packet, other) at h) in
      (m, Memᴰ.tail listed, is)
]

mem-last :
    (m r : OfflineMessage) (rows : List OfflineMessage)
    → Memᴰ m (rows ++ r ∷ [])
    → Memᴰ m rows ⊎ (m ≡ r)
mem-last m r [] (Memᴰ.head e) = inr e
mem-last m r [] (Memᴰ.tail h) = elim h [ ]
mem-last m r (x ∷ rows) (Memᴰ.head e) = inl (Memᴰ.head e)
mem-last m r (x ∷ rows) (Memᴰ.tail h) = elim (mem-last m r rows h) [
  | inl k ↦ inl (Memᴰ.tail k)
  | inr e ↦ inr e
]

insert_offline-mem :
    (m r : OfflineMessage) (rows : List OfflineMessage)
    → Memᴰ m (insert_offline r rows)
    → Memᴰ m rows ⊎ (m ≡ r)
unfolding insert_offline
insert_offline-mem m r rows h = elim (Bool-cases (has_packet r.packet_id rows)) [
  | inl there ↦ inl (rw (insert_offline, there) at h)
  | inr fresh ↦ mem-last m r rows (rw (insert_offline, fresh) at h)
]

enqueue-Adds :
    (env : Env) (client : String) (q : Packet) (s : Server)
    → Adds s client q (enqueue env client q s).1
unfolding enqueue Persistent.enqueue enqueue_offline_message
enqueue-Adds env client q s m h = elim (Option-cases (env.db_fault s.calls)) [
  | inr (e, fault) ↦ inl (rw (enqueue_offline_message, fault) at h)
  | inl fine ↦
      elim (insert_offline-mem m (queued_row (env.clock s.calls) client q) (rows_of s)
        (rw (enqueue_offline_message, fine) at h)) [
          | inl old ↦ inl old
          | inr new ↦ inr (env.clock s.calls, new)
        ]
]

enqueued-rows : (r : Option Error × Server) → rows_of (enqueued r).1 ≡ rows_of r.1
unfolding enqueued
enqueued-rows (some e, s) = refl
enqueued-rows (none, s) = refl

queue_offline-Adds :
    (env : Env) (client : String) (q : Packet) (s : Server)
    → Adds s client q (queue_offline env client q s).1
unfolding queue_offline
queue_offline-Adds env client q s m h = elim (Bool-cases (ltb_ℤ (pos 0) q.qos)) [
  | inr unwanted ↦ inl (rw (queue_offline, unwanted) at h)
  | inl wanted ↦
      let k : Memᴰ m (rows_of (enqueued (enqueue env client q s)).1) =
        rw (queue_offline, wanted) at h in
      enqueue-Adds env client q s m (subst (Memᴰ m) (enqueued-rows (enqueue env client q s)) k)
]

send-rows :
    (env : Env) (c : ConnId) (q : Packet) (s : Server) → rows_of (send env c q s).1 ≡ rows_of s
unfolding send
send-rows env c q s = elim (Option-cases (env.send_fault s.calls)) [
  | inl fine ↦ rw fine refl
  | inr (e, fault) ↦ rw fault refl
]

after_send-Adds :
    (env : Env) (client : String) (q : Packet) (s : Server) (r : Option Error × Server)
    → rows_of r.1 ≡ rows_of s
    → Adds s client q (after_send env client q r).1
unfolding after_send
after_send-Adds env client q s (none, s') same m h = inl (subst (Memᴰ m) same h)
after_send-Adds env client q s (some e, s') same m h =
    elim (queue_offline-Adds env client q _ m h) [
      | inl old ↦ inl (subst (Memᴰ m) same old)
      | inr new ↦ inr new
    ]

deliver_to-Adds :
    (env : Env) (target : Session) (q : Packet) (s : Server)
    → Adds s target.client_id q (deliver_to env target q s).1
unfolding deliver_to
deliver_to-Adds env target q s m h = elim (Option-cases (reachable target)) [
  | inl away ↦ queue_offline-Adds env target.client_id q s m (rw (deliver_to, away) at h)
  | inr (c, there) ↦
      after_send-Adds env target.client_id q s (send env c q s) (send-rows env c q s) m
        (rw (deliver_to, there) at h)
]

-- A row that is the packet's copy for a match, under the client id of that match's session.
abbrev pub RowFor : Packet → Session.Store → List Match → OfflineMessage → Type 0
RowFor p sessions matches m =
    (k : Match) × (target : Session) × (now : Time) × Memᴰ k matches
    × (get k.client_id sessions ≡ some target)
    × (m ≡ queued_row now target.client_id (outbound_for p k))

-- Every row was there before, or is for a match.
abbrev Queues : Packet → Server → List Match → Server → Type 0
Queues p s matches s' =
    (m : OfflineMessage) → Memᴰ m (rows_of s') → Memᴰ m (rows_of s) ⊎ RowFor p s.sessions matches m

deliver-Queues :
    (env : Env) (p : Packet) (k : Match) (ms : List Match) (s : Server)
    → Queues p s (k ∷ ms) (deliver env p k s).1
unfolding deliver
deliver-Queues env p k ms s m h = elim (Option-cases (get k.client_id s.sessions)) [
  | inl absent ↦ inl (rw (deliver, absent) at h)
  | inr (target, found) ↦
      elim (deliver_to-Adds env target (outbound_for p k) s m (rw (deliver, found) at h)) [
        | inl old ↦ inl old
        | inr (now, new) ↦ inr (k, target, now, Memᴰ.head refl, found, new)
      ]
]

later-RowFor :
    (p : Packet) (sessions : Session.Store) (k : Match) (ms : List Match) (m : OfflineMessage)
    → RowFor p sessions ms m
    → RowFor p sessions (k ∷ ms) m
later-RowFor p sessions k ms m (j, target, now, listed, found, is) =
    (j, target, now, Memᴰ.tail listed, found, is)

resume-Queues :
    (p : Packet) (k : Match) (ms : List Match) (rest : ℕ → Server → (ℕ × Option Error) × Server)
    → ((d : ℕ) (s : Server) → Queues p s ms (rest d s).1)
    → (d : ℕ) (s : Server) (r : Result Bool × Server) → r.1.sessions ≡ s.sessions
    → Queues p s (k ∷ ms) r.1
    → Queues p s (k ∷ ms) (resume rest d r).1
unfolding resume
resume-Queues p k ms rest later d s (err e, s') same first m h = first m h
resume-Queues p k ms rest later d s (ok b, s') same first m h = elim (later _ s' m h) [
  | inl old ↦ first m old
  | inr new ↦ inr (later-RowFor p s.sessions k ms m (subst (λ l. RowFor p l ms m) same new))
]

-- Every row of the queue after a routing was there before, or is the packet's copy for a match, under
-- the client id of that match's session.
pub route_matches-Queues :
    (env : Env) (p : Packet) (ms : List Match) (d : ℕ) (s : Server)
    → Queues p s ms (route_matches env p ms d s).1
unfolding route_matches
route_matches-Queues env p [] d s m h = inl h
route_matches-Queues env p (k ∷ ms) d s m h =
    resume-Queues p k ms (route_matches env p ms) (route_matches-Queues env p ms) d s
      (deliver env p k s) (deliver-Keeps env p k s).sessions (deliver-Queues env p k ms s) m h

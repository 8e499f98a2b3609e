-- ===== src/Broker/Router/Payloads.antt =====
-- Which payloads are sent and queued by routing: those of the packet that is routed.
use carbmq_core.Base.{
  String, Bool, List, [], ◌∷◌, Option, none, some, sym, subst, Option-cases, inl, inr, All,
  All-append, ltb_ℤ, pos, if_both, ap, ℕ,
}
use carbmq_core.Errors.{Error, Result, ok, err}
use carbmq_core.Qtt.Packet.{Packet, RawMessage}
use carbmq_core.Broker.Session.{Session, ConnId, get}
use carbmq_core.Broker.Subscription.{Match}
use carbmq_core.Broker.State.{Env, Server, called, send}
use carbmq_core.Broker.Router.{
  outbound_for, enqueue, enqueued, queue_offline, after_send, reachable, deliver_to, deliver,
  resume, route_matches, route,
}
use carbmq_core.Broker.Router.Delivery.{outbound_for_lem}
use carbmq_core.Db.Tables.{OfflineMessage, empty_object, or_empty_object}
use carbmq_core.Db.Offline.{has_packet, insert_offline, enqueue_offline_message, offline_row}
use carbmq_core.Queue.Persistent

-- every packet that was sent, and every row of the queue, has a payload with the property `Q`
pub record Carries (Q : RawMessage → Type 0) (s : Server) : Type 0 where
  pub sent : All (λ (e : ConnId × Packet). Q e.1.payload) s.sent
  pub queued : All (λ m. Q m.payload) s.tables.offline_messages

module _ (Q : RawMessage → Type 0) (of_object : Q empty_object) where
  or_empty_object_holds : (b : RawMessage) → Q b → Q (or_empty_object b)
  or_empty_object_holds [] q = of_object
  or_empty_object_holds (c ∷ cs) q = q

  insert_offline_holds :
      (m : OfflineMessage) (rows : List OfflineMessage)
      → Q m.payload
      → All (λ m. Q m.payload) rows
      → All (λ m. Q m.payload) (insert_offline m rows)
  unfolding insert_offline
  insert_offline_holds m rows q h =
      if_both (All (λ m. Q m.payload)) (has_packet m.packet_id rows) h
        (All-append (λ m. Q m.payload) rows (m ∷ []) h (q, tt))

  enqueue-Carries :
      (env : Env) (client : String) (p : Packet) (s : Server)
      → Q p.payload
      → Carries Q s
      → Carries Q (enqueue env client p s).1
  unfolding enqueue Persistent.enqueue enqueue_offline_message offline_row
      Persistent.to_offline_message
  enqueue-Carries env client p s q h = elim (Option-cases (env.db_fault s.calls)) [
    | inr (e, fault) ↦
        rw (enqueue_offline_message, fault) (record { sent = h.sent; queued = h.queued })
    | inl fine ↦
        rw (enqueue_offline_message, fine)
          (record {
            sent = h.sent;
            queued =
                insert_offline_holds _ s.tables.offline_messages (or_empty_object_holds p.payload q)
                  h.queued;
          })
  ]

  enqueued-Carries : (r : Option Error × Server) → Carries Q r.1 → Carries Q (enqueued r).1
  unfolding enqueued
  enqueued-Carries (some e, s) h = h
  enqueued-Carries (none, s) h = record { sent = h.sent; queued = h.queued }

  queue_offline-Carries :
      (env : Env) (client : String) (p : Packet) (s : Server)
      → Q p.payload
      → Carries Q s
      → Carries Q (queue_offline env client p s).1
  unfolding queue_offline
  queue_offline-Carries env client p s q h =
      if_both (λ (r : Result Bool × Server). Carries Q r.1) (ltb_ℤ (pos 0) p.qos)
        (enqueued-Carries (enqueue env client p s) (enqueue-Carries env client p s q h)) h

  pub send-Carries :
      (env : Env) (conn : ConnId) (p : Packet) (s : Server)
      → Q p.payload
      → Carries Q s
      → Carries Q (send env conn p s).1
  unfolding send
  send-Carries env conn p s q h = elim (Option-cases (env.send_fault s.calls)) [
    | inr (e, fault) ↦ rw fault (record { sent = h.sent; queued = h.queued })
    | inl fine ↦ rw fine (record {
      sent = All-append (λ e. Q e.1.payload) s.sent _ h.sent (q, tt);
      queued = h.queued;
    })
  ]

  after_send-Carries :
      (env : Env) (client : String) (p : Packet) (r : Option Error × Server)
      → Q p.payload
      → Carries Q r.1
      → Carries Q (after_send env client p r).1
  unfolding after_send
  after_send-Carries env client p (none, s) q h = record { sent = h.sent; queued = h.queued }
  after_send-Carries env client p (some e, s) q h =
      queue_offline-Carries env client p _ q (record { sent = h.sent; queued = h.queued })

  deliver_to-Carries :
      (env : Env) (target : Session) (p : Packet) (s : Server)
      → Q p.payload
      → Carries Q s
      → Carries Q (deliver_to env target p s).1
  unfolding deliver_to
  deliver_to-Carries env target p s q h = elim (Option-cases (reachable target)) [
    | inl away ↦ rw (deliver_to, away) (queue_offline-Carries env target.client_id p s q h)
    | inr (conn, there) ↦
        rw (deliver_to, there)
          (after_send-Carries env target.client_id p (send env conn p s) q
            (send-Carries env conn p s q h))
  ]

  outbound_holds : (p : Packet) (match : Match) → Q p.payload → Q (outbound_for p match).payload
  outbound_holds p match q =
      subst Q (sym (ap (λ (r : Packet). r.payload) (outbound_for_lem p match).2)) q

  deliver-Carries :
      (env : Env) (p : Packet) (match : Match) (s : Server)
      → Q p.payload
      → Carries Q s
      → Carries Q (deliver env p match s).1
  unfolding deliver
  deliver-Carries env p match s q h = elim (Option-cases (get match.client_id s.sessions)) [
    | inl gone ↦ rw (deliver, gone) h
    | inr (target, there) ↦
        rw (deliver, there)
          (deliver_to-Carries env target (outbound_for p match) s (outbound_holds p match q) h)
  ]

  resume-Carries :
      (rest : ℕ → Server → (ℕ × Option Error) × Server)
      → ((d : ℕ) (s : Server) → Carries Q s → Carries Q (rest d s).1)
      → (d : ℕ) (r : Result Bool × Server) → Carries Q r.1
      → Carries Q (resume rest d r).1
  unfolding resume
  resume-Carries rest keep d (err e, s) h = h
  resume-Carries rest keep d (ok b, s) h = keep _ s h

  route_matches-Carries :
      (env : Env) (p : Packet) (ms : List Match) (d : ℕ) (s : Server)
      → Q p.payload
      → Carries Q s
      → Carries Q (route_matches env p ms d s).1
  unfolding route_matches
  route_matches-Carries env p [] d s q h = h
  route_matches-Carries env p (m ∷ ms) d s q h =
      resume-Carries (route_matches env p ms) (λ d s h. route_matches-Carries env p ms d s q h) d
        (deliver env p m s) (deliver-Carries env p m s q h)

  pub route-Carries :
      (env : Env) (p : Packet) (s : Server)
      → Q p.payload
      → Carries Q s
      → Carries Q (route env p s).1
  unfolding route
  route-Carries env p s q h =
      route_matches-Carries env p _ 0 (called s) q (record { sent = h.sent; queued = h.queued })

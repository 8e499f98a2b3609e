-- ===== src/Broker/Server/Connection/PayloadRounds.antt =====
-- A round of the loop, the start and the end of a connection send and queue no other payloads than were
-- received.
use carbmq_core.Base.{
  ◌+◌, String, Bool, true, false, List, [], Option, none, some, refl, Option-cases, inl, inr, All,
  if_both, ◌==◌,
}
use carbmq_core.Errors.{Error, Result, Result-cases, ok, err, error_text, unsupported_packet}
use carbmq_core.Qtt.Packet.{
  Packet, RawMessage, Subscription, packet_publish, packet_pub_ack, packet_subscribe, packet_ping,
  packet_disconnect,
}
use carbmq_core.Qtt.Builders.{conn_ack, pong}
use carbmq_core.Auth.Claims.{Claims}
use carbmq_core.Broker.Session.{ConnId}
use carbmq_core.Broker.State.{Env, Server}
use carbmq_core.Broker.Router.Payloads.{Carries}
use carbmq_core.Broker.Server.{established, accepted, welcome, checked, authenticate}
use carbmq_core.Broker.Server.Connection.{
  reported, ponged, marked, acked, queue_ack, dispatch, limited, handle_packet, finish, opened,
  start, noticed,
}
use carbmq_core.Broker.Limiter.{allow}
use carbmq_core.Db.Tables.{Tables, empty_object}
use carbmq_core.Db.Tables.Rows.{All-where_rows}
use carbmq_core.Db.Messages.{mark_message_acknowledged}
use carbmq_core.Db.Offline.{delete_offline_message}
use carbmq_core.Queue.Persistent
use carbmq_core.Broker.Server.Connection.Payloads.{
  send_built-Carries, send_error-Carries, handle_subscribe-Carries, handle_publish-Carries,
  deliver_offline-Carries,
}

module _ (Q : RawMessage → Type 0) (of_object : Q empty_object) (of_nothing : Q []) where
  marked-Carries :
      (env : Env) (id : String) (s : Server) → Carries Q s → Carries Q (marked env id s)
  unfolding marked mark_message_acknowledged
  marked-Carries env id s h = elim (Option-cases (env.db_fault s.calls)) [
    | inr (e, fault) ↦ record {
      sent = h.sent;
      queued = rw (mark_message_acknowledged, fault) h.queued;
    }
    | inl fine ↦ record { sent = h.sent; queued = rw (mark_message_acknowledged, fine) h.queued }
  ]

  acked-Carries : (fault : Option Error) (s : Server) → Carries Q s → Carries Q (acked fault s)
  unfolding acked
  acked-Carries none s h = record { sent = h.sent; queued = h.queued }
  acked-Carries (some e) s h = h

  deleted_holds :
      (fault : Option Error) (id : String) (t : Tables)
      → All (λ m. Q m.payload) t.offline_messages
      → All (λ m. Q m.payload) (delete_offline_message fault id t).1.offline_messages
  unfolding delete_offline_message
  deleted_holds none id t h = All-where_rows (λ m. Q m.payload) _ t.offline_messages h
  deleted_holds (some e) id t h = h

  queue_ack-Carries :
      (env : Env) (id : String) (s : Server) → Carries Q s → Carries Q (queue_ack env id s)
  unfolding queue_ack Persistent.ack
  queue_ack-Carries env id s h =
      let (fault, tables) = Persistent.ack (env.db_fault s.calls) id s.tables in
      acked-Carries fault (record s { tables = tables; calls = s.calls + 1 })
        (record {
          sent = h.sent;
          queued = deleted_holds (env.db_fault s.calls) id s.tables h.queued;
        })

  reported-Carries :
      (env : Env) (conn : ConnId) (code : String) (r : Option Error × Server)
      → Carries Q r.1
      → Carries Q (reported env conn code r).1
  unfolding reported
  reported-Carries env conn code (none, s) h = h
  reported-Carries env conn code (some e, s) h =
      send_error-Carries Q of_object of_nothing env conn code (error_text e) s h

  ponged-Carries : (r : Option Error × Server) → Carries Q r.1 → Carries Q (ponged r).1
  unfolding ponged
  ponged-Carries (none, s) h = record { sent = h.sent; queued = h.queued }
  ponged-Carries (some e, s) h = h

  dispatch-Carries :
      (env : Env) (conn : ConnId) (client : String) (claims : Claims) (p : Packet) (s : Server)
      → Q p.payload
      → Carries Q s
      → Carries Q (dispatch env conn client claims p s).1
  unfolding dispatch pong
  dispatch-Carries env conn client claims p s q h =
      let P : Bool × Server → Type 0 = λ r. Carries Q r.1 in
      if_both P (p.type == packet_ping)
        (ponged-Carries _
          (send_built-Carries Q of_object of_nothing env conn pong s (λ now. refl) h))
        (if_both P (p.type == packet_subscribe)
          (reported-Carries env conn "SUBSCRIBE_FAILED" _
            (handle_subscribe-Carries Q of_object of_nothing env conn client claims p s h))
          (if_both P (p.type == packet_publish)
            (reported-Carries env conn "PUBLISH_FAILED" _
              (handle_publish-Carries Q of_object of_nothing env conn client claims p s q h))
            (if_both P (p.type == packet_pub_ack)
              (queue_ack-Carries env p.packet_id _ (marked-Carries env p.packet_id s h))
              (if_both P (p.type == packet_disconnect) h (
                send_error-Carries Q of_object of_nothing env conn "UNSUPPORTED_PACKET"
                  (error_text (unsupported_packet p.type)) s h)))))

  limited-Carries :
      (env : Env) (conn : ConnId) (client : String) (claims : Claims) (p : Packet) (passed : Bool)
      (s : Server)
      → Q p.payload
      → Carries Q s
      → Carries Q (limited env conn client claims p passed s).1
  unfolding limited
  limited-Carries env conn client claims p true s q h =
      dispatch-Carries env conn client claims p s q h
  limited-Carries env conn client claims p false s q h =
      send_error-Carries Q of_object of_nothing env conn "RATE_LIMITED" "too many packets" _
        (record { sent = h.sent; queued = h.queued })

  pub handle_packet-Carries :
      (env : Env) (conn : ConnId) (client : String) (claims : Claims) (p : Packet) (s : Server)
      → Q p.payload
      → Carries Q s
      → Carries Q (handle_packet env conn client claims p s).1
  unfolding handle_packet noticed
  handle_packet-Carries env conn client claims p s q h =
      let s₁ = noticed env client s in
      let (passed, limiter) = allow (env.clock s₁.calls) client s₁.limiter in
      limited-Carries env conn client claims p passed
        (record s₁ { limiter = limiter; calls = s₁.calls + 1 }) q
        (record { sent = h.sent; queued = h.queued })

  pub finish-Carries :
      (env : Env) (client : String) (s : Server) → Carries Q s → Carries Q (finish env client s)
  unfolding finish
  finish-Carries env client s h = record { sent = h.sent; queued = h.queued }

  accepted-Carries :
      (client : String) (claims : Claims) (subs : List Subscription) (r : Option Error × Server)
      → Carries Q r.1
      → Carries Q (accepted client claims subs r).1
  unfolding accepted
  accepted-Carries client claims subs (none, s) h = record { sent = h.sent; queued = h.queued }
  accepted-Carries client claims subs (some e, s) h = h

  authenticate-Carries :
      (env : Env) (conn : ConnId) (received : Result Packet) (s : Server)
      → Carries Q s
      → Carries Q (authenticate env conn received s).1
  unfolding authenticate welcome established conn_ack
  authenticate-Carries env conn received s h = elim (Result-cases (checked env received s)) [
    | inl (e, denied) ↦ rw (authenticate, denied) (record { sent = h.sent; queued = h.queued })
    | inr ((client, claims), known) ↦
        rw (authenticate, known)
          (accepted-Carries client claims _ _ (
            send_built-Carries Q of_object of_nothing env conn (λ now. conn_ack now "accepted" _) _
              (λ now. refl) (record { sent = h.sent; queued = h.queued })))
  ]

  opened-Carries :
      (env : Env) (conn : ConnId) (r : Result (String × Claims × List Subscription) × Server)
      → ((b : RawMessage) → Q b → Q (env.jsonb b))
      → Carries Q r.1
      → Carries Q (opened env conn r).1
  unfolding opened
  opened-Carries env conn (err e, s) back h =
      send_error-Carries Q of_object of_nothing env conn "AUTH_FAILED" (error_text e) _
        (record { sent = h.sent; queued = h.queued })
  opened-Carries env conn (ok (client, claims, subs), s) back h =
      deliver_offline-Carries Q of_object of_nothing env client conn s back h

  pub start-Carries :
      (env : Env) (conn : ConnId) (received : Result Packet) (s : Server)
      → ((b : RawMessage) → Q b → Q (env.jsonb b))
      → Carries Q s
      → Carries Q (start env conn received s).1
  unfolding start
  start-Carries env conn received s back h =
      opened-Carries env conn _ back (authenticate-Carries env conn received s h)

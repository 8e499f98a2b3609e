-- ===== src/Broker/Server/Connection/Payloads.antt =====
-- Which payloads the handlers send and queue: those that were received, and none in their own answers.
use carbmq_core.Base.{
  ◌+◌, String, List, [], ◌∷◌, Option, none, some, ◌≡◌, refl, sym, subst, Option-cases, inl, inr,
  All, ltb_ℤ, pos, if_both, ℕ, map, ◌==◌, if◌then◌else◌,
}
use carbmq_core.Errors.{Error, Result, Result-cases, ok, err}
use carbmq_core.Qtt.Packet.{Packet, RawMessage, Time, is_zero}
use carbmq_core.Qtt.Builders.{sub_ack, pub_ack, error_packet}
use carbmq_core.Auth.Claims.{Claims}
use carbmq_core.Auth.Acl.{can_publish}
use carbmq_core.Broker.Session.{ConnId}
use carbmq_core.Broker.State.{Env, Server, called, send, send_built, count}
use carbmq_core.Broker.Router.{route}
use carbmq_core.Broker.Router.Payloads.{Carries, send-Carries, route-Carries}
use carbmq_core.Broker.Server.{
  refused, counted_send, is_empty, subscribed, handle_subscribe, stamped, save, acknowledged, saved,
  handle_publish, send_all, deliver_offline,
}
use carbmq_core.Broker.Server.Connection.{send_error}
use carbmq_core.Db.Tables.{OfflineMessage, Tables, empty_object, where_rows, order_by}
use carbmq_core.Db.Tables.Rows.{All-where_rows, order_by-All}
use carbmq_core.Db.Messages.{save_message}
use carbmq_core.Db.Offline.{sooner, get_offline_messages, scanned}
use carbmq_core.Queue.Persistent

module _ (Q : RawMessage → Type 0) (of_object : Q empty_object) (of_nothing : Q []) where
  pub send_built-Carries :
      (env : Env) (conn : ConnId) (build : Time → Packet) (s : Server)
      → ((now : Time) → (build now).payload ≡ [])
      → Carries Q s
      → Carries Q (send_built env conn build s).1
  unfolding send_built
  send_built-Carries env conn build s empty h =
      send-Carries Q of_object env conn (build (env.clock s.calls)) (called s)
        (subst Q (sym (empty _)) of_nothing) (record { sent = h.sent; queued = h.queued })

  pub send_error-Carries :
      (env : Env) (conn : ConnId) (code text : String) (s : Server)
      → Carries Q s
      → Carries Q (send_error env conn code text s)
  unfolding send_error error_packet
  send_error-Carries env conn code text s h =
      send_built-Carries env conn (λ now. error_packet now code text) s (λ now. refl) h

  counted_send-Carries : (r : Option Error × Server) → Carries Q r.1 → Carries Q (counted_send r).1
  unfolding counted_send
  counted_send-Carries (none, s) h = record { sent = h.sent; queued = h.queued }
  counted_send-Carries (some e, s) h = h

  pub handle_subscribe-Carries :
      (env : Env) (conn : ConnId) (client : String) (claims : Claims) (p : Packet) (s : Server)
      → Carries Q s
      → Carries Q (handle_subscribe env conn client claims p s).1
  unfolding handle_subscribe subscribed sub_ack
  handle_subscribe-Carries env conn client claims p s h =
      if_both (λ (r : Option Error × Server). Carries Q r.1) (is_empty p.subscriptions) h
        (elim (Option-cases (refused claims p.subscriptions)) [
          | inr (e, denied) ↦ rw denied h
          | inl allowed ↦ rw allowed (
              counted_send-Carries _ (
                send_built-Carries env conn (λ now. sub_ack now p.packet_id)
                  (subscribed client p.subscriptions s) (λ now. refl)
                  (record { sent = h.sent; queued = h.queued })))
        ])

  stamped-Carries :
      (env : Env) (client : String) (p : Packet) (s : Server)
      → Carries Q s
      → Carries Q (stamped env client p s).1
  unfolding stamped
  stamped-Carries env client p s h =
      let fresh = p.packet_id == "" in
      let named : Carries Q (if fresh then called s else s) =
        if_both (Carries Q) fresh (record { sent = h.sent; queued = h.queued }) h in
      if_both (Carries Q) (is_zero p.timestamp)
        (record { sent = named.sent; queued = named.queued }) named

  save-Carries : (env : Env) (p : Packet) (s : Server) → Carries Q s → Carries Q (save env p s).1
  unfolding save save_message
  save-Carries env p s h = elim (Option-cases (env.db_fault s.calls)) [
    | inr (e, fault) ↦ rw (save_message, fault) (record { sent = h.sent; queued = h.queued })
    | inl fine ↦ rw (save_message, fine) (record { sent = h.sent; queued = h.queued })
  ]

  acknowledged-Carries :
      (env : Env) (conn : ConnId) (p : Packet) (r : (ℕ × Option Error) × Server)
      → Carries Q r.1
      → Carries Q (acknowledged env conn p r).1
  unfolding acknowledged pub_ack
  acknowledged-Carries env conn p ((d, some e), s) h = h
  acknowledged-Carries env conn p ((d, none), s) h =
      if_both (λ (r : Option Error × Server). Carries Q r.1) (ltb_ℤ (pos 0) p.qos)
        (counted_send-Carries _
          (send_built-Carries env conn (λ now. pub_ack now p.packet_id) s (λ now. refl) h))
        h

  saved-Carries :
      (env : Env) (conn : ConnId) (p : Packet) (r : Option Error × Server)
      → Q p.payload
      → Carries Q r.1
      → Carries Q (saved env conn p r).1
  unfolding saved
  saved-Carries env conn p (some e, s) q h = h
  saved-Carries env conn p (none, s) q h =
      let s' = count (λ m. record m { publishes = m.publishes + 1 }) s in
      acknowledged-Carries env conn p (route env p s')
        (route-Carries Q of_object env p s' q (record { sent = h.sent; queued = h.queued }))

  pub handle_publish-Carries :
      (env : Env) (conn : ConnId) (client : String) (claims : Claims) (p : Packet) (s : Server)
      → Q p.payload
      → Carries Q s
      → Carries Q (handle_publish env conn client claims p s).1
  unfolding handle_publish stamped
  handle_publish-Carries env conn client claims p s q h =
      if_both (λ (r : Option Error × Server). Carries Q r.1) (p.topic == "") h
        (elim (Option-cases (can_publish claims p.topic)) [
          | inr (e, denied) ↦ rw denied h
          | inl allowed ↦ rw allowed (
              let (p', s') = stamped env client p s in
              saved-Carries env conn p' (save env p' s') q
                (save-Carries env p' s' (stamped-Carries env client p s h)))
        ])

  send_all-Carries :
      (env : Env) (conn : ConnId) (ps : List Packet) (s : Server)
      → All (λ p. Q p.payload) ps
      → Carries Q s
      → Carries Q (send_all env conn ps s).1
  unfolding send_all
  send_all-Carries env conn [] s q h = h
  send_all-Carries env conn (p ∷ ps) s q h =
      let out = send-Carries Q of_object env conn p s q.0 h in
      elim (Option-cases (send env conn p s).0) [
        | inr (e, fault) ↦ rw (send_all, fault) out
        | inl fine ↦
            rw (send_all, fine)
              (send_all-Carries env conn ps _ q.1 (record { sent = out.sent; queued = out.queued }))
      ]

  pending_holds :
      (jsonb : RawMessage → RawMessage) (fault : Option Error) (client : String) (t : Tables)
      (ps : List Packet)
      → ((b : RawMessage) → Q b → Q (jsonb b))
      → All (λ m. Q m.payload) t.offline_messages
      → Persistent.pending jsonb fault client t ≡ ok ps
      → All (λ p. Q p.payload) ps
  unfolding Persistent.pending Persistent.to_packet get_offline_messages scanned
  pending_holds jsonb (some e) client t ps back h found = cc
  pending_holds jsonb none client t ps back h found =
      subst (λ r. All (λ p. Q p.payload) (taken r)) found
        (rows-hold (order_by sooner (where_rows (λ m. m.client_id == client) t.offline_messages)) (
          order_by-All (λ m. Q m.payload) sooner _
            (All-where_rows (λ m. Q m.payload) (λ m. m.client_id == client) _ h)))
    where
      taken : Result (List Packet) → List Packet
      taken (ok ps) = ps
      taken (err e) = []

      rows-hold :
          (rows : List OfflineMessage)
          → All (λ m. Q m.payload) rows
          → All (λ p. Q p.payload) (map Persistent.to_packet (map (scanned jsonb) rows))
      rows-hold [] h = tt
      rows-hold (m ∷ rows) h = (back m.payload h.0, rows-hold rows h.1)

  pub deliver_offline-Carries :
      (env : Env) (client : String) (conn : ConnId) (s : Server)
      → ((b : RawMessage) → Q b → Q (env.jsonb b))
      → Carries Q s
      → Carries Q (deliver_offline env client conn s).1
  unfolding deliver_offline
  deliver_offline-Carries env client conn s back h =
      let h' : Carries Q (called s) = record { sent = h.sent; queued = h.queued } in
      elim (Result-cases (Persistent.pending env.jsonb (env.db_fault s.calls) client s.tables)) [
        | inl (e, fault) ↦ rw (deliver_offline, fault) h'
        | inr (ps, found) ↦
            rw (deliver_offline, found)
              (send_all-Carries env conn ps (called s)
                (pending_holds env.jsonb _ client s.tables ps back h.queued found) h')
      ]

-- ===== src/Broker/Server/Connection/Quiet.antt =====
-- What leaves the sessions and the registry alone: sends, counters, statements and routing.
use carbmq_core.Base.{
  ℕ, ◌+◌, String, List, [], ◌∷◌, Option, none, some, ◌≡◌, refl, arith, sym, ◌∙◌, subst,
  Option-cases, Bool-cases, inl, inr, ltb_ℤ, pos, ◌==◌,
}
use carbmq_core.Errors.{Result-cases, Error}
use carbmq_core.Qtt.Packet.{Packet, Time}
use carbmq_core.Qtt.Builders.{error_packet, pub_ack}
use carbmq_core.Auth.Claims.{Claims}
use carbmq_core.Auth.Acl.{can_publish}
use carbmq_core.Broker.Session.{ConnId}
use carbmq_core.Broker.State.{Env, Server, Metrics, called, send, send_built, count, packet_out}
use carbmq_core.Broker.Router.{route}
use carbmq_core.Broker.Router.Reach.{route-Keeps}
use carbmq_core.Broker.Server.{
  counted_send, stamped, save, inbound_message, acknowledged, saved, handle_publish, send_all,
  deliver_offline,
}
use carbmq_core.Broker.Server.Connection.{send_error}
use carbmq_core.Broker.Server.Connection.Consistent.{IsValid, Agree}
use carbmq_core.Db.Tables.{Message, Tables}
use carbmq_core.Db.Messages.{save_message}
use carbmq_core.Db.Offline.Laws.{IsKeyed}
use carbmq_core.Queue.Persistent

pub record Quiet (s s' : Server) : Type 0 where
  pub sessions : s'.sessions ≡ s.sessions
  pub subscriptions : s'.subscriptions ≡ s.subscriptions
  pub active : s'.metrics.active_sessions ≡ s.metrics.active_sessions
  pub keyed : IsKeyed s.tables.offline_messages → IsKeyed s'.tables.offline_messages

pub Quiet-refl : (s : Server) → Quiet s s
Quiet-refl s = record { sessions = refl; subscriptions = refl; active = refl; keyed = λ h. h }

pub Quiet-trans : {s t u : Server} → Quiet s t → Quiet t u → Quiet s u
Quiet-trans h k = record {
  sessions = k.sessions ∙ h.sessions;
  subscriptions = k.subscriptions ∙ h.subscriptions;
  active = k.active ∙ h.active;
  keyed = λ u. k.keyed (h.keyed u);
}

pub Quiet-IsValid : {s s' : Server} → Quiet s s' → IsValid s → IsValid s'
Quiet-IsValid {s} {s'} q h = record {
  agree =
      subst (λ r. Agree s'.sessions r) (sym q.subscriptions)
        (subst (λ x. Agree x s.subscriptions) (sym q.sessions) h.agree);
  gauge = rw (q.active, q.sessions) h.gauge;
  keyed = q.keyed h.keyed;
}

-- a counter other than the gauge of active sessions
pub count-Quiet :
    (f : Metrics → Metrics) (s : Server)
    → (f s.metrics).active_sessions ≡ s.metrics.active_sessions
    → Quiet s (count f s)
count-Quiet f s e = record { sessions = refl; subscriptions = refl; active = e; keyed = λ h. h }

send-Quiet : (env : Env) (conn : ConnId) (p : Packet) (s : Server) → Quiet s (send env conn p s).1
unfolding send
send-Quiet env conn p s = elim (Option-cases (env.send_fault s.calls)) [
  | inl fine ↦ ground (arith, fine)
  | inr (e, fault) ↦ ground (arith, fault)
]

called-Quiet : (s : Server) → Quiet s (called s)
called-Quiet s = record { sessions = refl; subscriptions = refl; active = refl; keyed = λ h. h }

pub send_built-Quiet :
    (env : Env) (conn : ConnId) (build : Time → Packet) (s : Server)
    → Quiet s (send_built env conn build s).1
unfolding send_built
send_built-Quiet env conn build s =
    Quiet-trans (called-Quiet s) (send-Quiet env conn (build (env.clock s.calls)) (called s))

pub send_error-Quiet :
    (env : Env) (conn : ConnId) (code text : String) (s : Server)
    → Quiet s (send_error env conn code text s)
unfolding send_error
send_error-Quiet env conn code text s =
    send_built-Quiet env conn (λ now. error_packet now code text) s

pub counted_send-Quiet :
    (s : Server) (r : Option Error × Server) → Quiet s r.1 → Quiet s (counted_send r).1
unfolding counted_send
counted_send-Quiet s (none, s') q = Quiet-trans q (count-Quiet packet_out s' refl)
counted_send-Quiet s (some e, s') q = q

stamped-Quiet :
    (env : Env) (client : String) (p : Packet) (s : Server) → Quiet s (stamped env client p s).1
unfolding stamped
stamped-Quiet env client p s = ground arith

save_message-offline :
    (fault : Option Error) (m : Message) (t : Tables)
    → (save_message fault m t).1.offline_messages ≡ t.offline_messages
unfolding save_message
save_message-offline fault m t = ground arith

save-Quiet : (env : Env) (p : Packet) (s : Server) → Quiet s (save env p s).1
unfolding save
save-Quiet env p s = record {
  sessions = refl;
  subscriptions = refl;
  active = refl;
  keyed =
      subst IsKeyed
        (sym (save_message-offline (env.db_fault s.calls) (inbound_message p) s.tables));
}

route-Quiet : (env : Env) (p : Packet) (s : Server) → Quiet s (route env p s).1
route-Quiet env p s =
    let k = route-Keeps env p s in
    record {
      sessions = k.sessions;
      subscriptions = k.subscriptions;
      active = k.active;
      keyed = k.keyed;
    }

acknowledged-Quiet :
    (env : Env) (conn : ConnId) (p : Packet) (s : Server) (r : (ℕ × Option Error) × Server)
    → Quiet s r.1
    → Quiet s (acknowledged env conn p r).1
unfolding acknowledged
acknowledged-Quiet env conn p s ((d, some e), s') q = q
acknowledged-Quiet env conn p s ((d, none), s') q = elim (Bool-cases (ltb_ℤ (pos 0) p.qos)) [
  | inl asks ↦ rw asks (
      counted_send-Quiet s (send_built env conn (λ now. pub_ack now p.packet_id) s')
        (Quiet-trans q (send_built-Quiet env conn (λ now. pub_ack now p.packet_id) s')))
  | inr fails ↦ rw fails q
]

saved-Quiet :
    (env : Env) (conn : ConnId) (p : Packet) (s : Server) (r : Option Error × Server)
    → Quiet s r.1
    → Quiet s (saved env conn p r).1
unfolding saved
saved-Quiet env conn p s (some e, s') q = q
saved-Quiet env conn p s (none, s') q =
    let s'' = count (λ m. record m { publishes = m.publishes + 1 }) s' in
    acknowledged-Quiet env conn p s (route env p s'') (
      Quiet-trans q (
        Quiet-trans (count-Quiet (λ m. record m { publishes = m.publishes + 1 }) s' refl)
          (route-Quiet env p s'')))

pub handle_publish-Quiet :
    (env : Env) (conn : ConnId) (client : String) (claims : Claims) (p : Packet) (s : Server)
    → Quiet s (handle_publish env conn client claims p s).1
unfolding handle_publish
handle_publish-Quiet env conn client claims p s = elim (Bool-cases (p.topic == "")) [
  | inl blank ↦ rw blank (Quiet-refl s)
  | inr given ↦ elim (Option-cases (can_publish claims p.topic)) [
    | inr (e, denied) ↦ rw (given, denied) (Quiet-refl s)
    | inl allowed ↦
        rw (given, allowed)
          (let (p', s') = stamped env client p s in
            saved-Quiet env conn p' s (save env p' s')
              (Quiet-trans (stamped-Quiet env client p s) (save-Quiet env p' s')))
  ]
]

send_all-Quiet :
    (env : Env) (conn : ConnId) (ps : List Packet) (s : Server) → Quiet s (send_all env conn ps s).1
unfolding send_all
send_all-Quiet env conn [] s = Quiet-refl s
send_all-Quiet env conn (p ∷ ps) s =
    let s' = (send env conn p s).1 in
    elim (Option-cases (send env conn p s).0) [
      | inl fine ↦
          rw (send_all, fine)
            (Quiet-trans (send-Quiet env conn p s) (
              Quiet-trans (count-Quiet packet_out s' refl)
                (send_all-Quiet env conn ps (count packet_out s'))))
      | inr (e, fault) ↦ rw (send_all, fault) (send-Quiet env conn p s)
    ]

pub deliver_offline-Quiet :
    (env : Env) (client : String) (conn : ConnId) (s : Server)
    → Quiet s (deliver_offline env client conn s).1
unfolding deliver_offline
deliver_offline-Quiet env client conn s =
    elim (Result-cases (Persistent.pending env.jsonb (env.db_fault s.calls) client s.tables)) [
      | inl (e, fault) ↦ rw (deliver_offline, fault) (called-Quiet s)
      | inr (ps, found) ↦
          rw (deliver_offline, found)
            (Quiet-trans (called-Quiet s) (send_all-Quiet env conn ps (called s)))
    ]

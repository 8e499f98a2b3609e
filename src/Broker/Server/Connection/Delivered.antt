-- ===== src/Broker/Server/Connection/Delivered.antt =====
-- What a client that is let in is sent before its first packet is handled.
use carbmq_core.Base.{
  ◌+◌, String, Bool, List, [], ◌∷◌, ◌++◌, Option, none, some, map, ◌≡◌, refl, arith, ap, sym, ◌∙◌,
  length,
}
use mathlib.Core.List.{append_assoc, append-nil}
use carbmq_core.Errors.{Error, Result, ok, err}
use carbmq_core.Qtt.Packet.{Packet, Time, Subscription}
use carbmq_core.Qtt.Builders.{conn_ack}
use carbmq_core.Auth.Claims.{Claims}
use carbmq_core.Broker.Session.{ConnId}
use carbmq_core.Broker.State.{Env, Server, Works, called, send, send_built, count, packet_out}
use carbmq_core.Broker.Server.{
  established, accepted, welcome, checked, authenticate, send_all, deliver_offline,
}
use carbmq_core.Broker.Server.Connection.{opened, start}
use carbmq_core.Broker.Server.Connection.Accept.{authenticate-eq-welcome, welcome_accepts}
use carbmq_core.Queue.Persistent.{pending}

-- packets on a connection
abbrev pub on : ConnId → List Packet → List (ConnId × Packet)
on conn = map (λ p. (conn, p))

module _ (env : Env) (works : Works env) (conn : ConnId) where
  send_works :
      (p : Packet) (s : Server)
      → send env conn p s ≡ (none, record (called s) { sent = s.sent ++ (conn, p) ∷ [] })
  unfolding send
  send_works p s = rw (send, works.sends s.calls) refl

  send_all_sends :
      (ps : List Packet) (s : Server)
      → let (fault, s') = send_all env conn ps s in
        (fault ≡ none)
        × (s'.sent ≡ s.sent ++ on conn ps)
        × (s'.tables ≡ s.tables)
        × (s'.metrics.packets_out ≡ s.metrics.packets_out + length ps)
  unfolding send_all
  send_all_sends [] s = (refl, sym (append-nil s.sent), refl, omega arith)
  send_all_sends (p ∷ ps) s =
      let done = send_works p s in
      let s' = (send env conn p s).1 in
      let grown = ap (λ (r : Option Error × Server). r.1.sent) done in
      let kept = ap (λ (r : Option Error × Server). r.1.tables) done in
      let out = ap (λ (r : Option Error × Server). r.1.metrics.packets_out) done in
      let (fine, sent, tables, counted) = send_all_sends ps (count packet_out s') in
      rw (send_all, ap (λ r. r.0) done)
        (
          fine,
          sent
              ∙ ap (λ l. l ++ on conn ps) grown
              ∙ append_assoc s.sent ((conn, p) ∷ []) (on conn ps),
          tables ∙ kept,
          omega (arith, counted, out),
        )

  welcome_sends :
      (client : String) (claims : Claims) (s : Server)
      → let s' = (welcome env conn client claims s).1 in
        (now : Time) × (present : Bool) × (s'.sent
          ≡ s.sent ++ (conn, conn_ack now "accepted" present) ∷ [])
        × (s'.tables ≡ s.tables)
  unfolding welcome accepted established send_built
  welcome_sends client claims s =
      let (r, s') = established env conn client claims s in
      let ack = conn_ack (env.clock s'.calls) "accepted" r.0 in
      let done = send_works ack (called s') in
      (
        env.clock s'.calls,
        r.0,
        rw (ap (λ r. r.0) done) (ap (λ (r : Option Error × Server). r.1.sent) done),
        rw (ap (λ r. r.0) done) (ap (λ (r : Option Error × Server). r.1.tables) done),
      )

  deliver_offline_sends :
      (client : String) (ps : List Packet) (s : Server)
      → pending env.jsonb none client s.tables ≡ ok ps
      → let s' = (deliver_offline env client conn s).1 in
        (s'.sent ≡ s.sent ++ on conn ps) × (s'.tables ≡ s.tables)
  unfolding deliver_offline
  deliver_offline_sends client ps s waiting =
      let found : pending env.jsonb (env.db_fault s.calls) client s.tables ≡ ok ps =
        ap (λ f. pending env.jsonb f client s.tables) (works.stores s.calls) ∙ waiting in
      let (_, sent, tables, _) = send_all_sends ps (called s) in
      rw (deliver_offline, found) (sent, tables)

  opened_sends :
      (client : String) (claims : Claims) (subs : List Subscription) (ps : List Packet)
      (r : Result (String × Claims × List Subscription) × Server)
      → r.0 ≡ ok (client, claims, subs)
      → pending env.jsonb none client r.1.tables ≡ ok ps
      → let (who, s') = opened env conn r in
        (who ≡ some (client, claims))
        × (s'.sent ≡ r.1.sent ++ on conn ps)
        × (s'.tables ≡ r.1.tables)
  unfolding opened
  opened_sends client claims subs ps (err e, s) h waiting = cc
  opened_sends client claims subs ps (ok (who, given, kept), s) h waiting =
      let same : who ≡ client = ground (arith, h) in
      let granted : given ≡ claims = ground (arith, h) in
      let (sent, tables) =
        deliver_offline_sends who ps s
          (ap (λ c. pending env.jsonb none c s.tables) same ∙ waiting) in
      (rw (same, granted) refl, sent, tables)

-- Where sends and statements work, a client that is let in is sent on its connection an accepting
-- CONNACK and then every packet that is pending env.jsonb for it, in the order of the queue, and nothing
-- else; the tables stay, so the packets stay pending.
pub start_delivers :
    (env : Env) (works : Works env) (conn : ConnId) (received : Result Packet) (s : Server)
    (client : String) (claims : Claims) (ps : List Packet)
    → checked env received s ≡ ok (client, claims)
    → pending env.jsonb none client s.tables ≡ ok ps
    → let (who, s') = start env conn received s in
      (who ≡ some (client, claims))
      × ((now : Time) × (present : Bool) × (s'.sent
            ≡ s.sent ++ (conn, conn_ack now "accepted" present) ∷ on conn ps))
      × (s'.tables ≡ s.tables)
unfolding start
start_delivers env works conn received s client claims ps known waiting =
    let enters = authenticate-eq-welcome env conn received s client claims known in
    let fine =
      ap (λ r. r.0) enters ∙ welcome_accepts env conn client claims (called s) works.sends in
    let (now, present, first, same) = welcome_sends env works conn client claims (called s) in
    let r = authenticate env conn received s in
    let acked =
      ap (λ (x : Result (String × Claims × List Subscription) × Server). x.1.sent) enters ∙ first in
    let stored =
      ap (λ (x : Result (String × Claims × List Subscription) × Server). x.1.tables) enters
      ∙ same in
    let (who, sent, tables) =
      opened_sends env works conn client claims _ ps r fine
        (ap (λ t. pending env.jsonb none client t) stored ∙ waiting) in
    (
      who,
      (
        now,
        present,
        sent
            ∙ ap (λ l. l ++ on conn ps) acked
            ∙ append_assoc s.sent ((conn, conn_ack now "accepted" present) ∷ []) (on conn ps),
      ),
      tables ∙ stored,
    )

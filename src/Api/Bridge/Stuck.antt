-- ===== src/Api/Bridge/Stuck.antt =====
-- The bridge against a broker that holds telemetry for it.
use carbmq_core.Base.{
  ℕ, ◌+◌, String, false, List, [], ◌∷◌, ◌++◌, none, map, ◌≡◌, refl, arith, ap, sym, ◌∙◌, ◌==◌, inl,
  inr,
}
use carbmq_core.Errors.{Result, ok, err, Result-cases}
use carbmq_core.Qtt.Packet.{Packet, RawMessage, packet_conn_ack, packet_sub_ack, packet_publish}
use carbmq_core.Qtt.Builders.{conn_ack}
use carbmq_core.Qtt.Client.{Config, Outside, Link, read_packet}
use carbmq_core.Qtt.Client.Calls.{hello, connect_reads, subscribe_sends}
use carbmq_core.Auth.Claims.{Claims}
use carbmq_core.Broker.Session.{ConnId}
use carbmq_core.Broker.State.{Env, Server, Works}
use carbmq_core.Broker.Server.{checked}
use carbmq_core.Broker.Server.Connection.{start}
use carbmq_core.Broker.Server.Connection.Delivered.{on, start_delivers}
use carbmq_core.Db.Tables.{Tables, OfflineMessage}
use carbmq_core.Db.Offline.{get_offline_messages}
use carbmq_core.Queue.Persistent.{pending, to_packet, to_packets}
use carbmq_core.Api.Bridge.{handshake, not_sub_ack, telemetry_filter}

-- A connection that reads another packet where the SUBACK should be is given up.
handshake_refuses :
    (o : Outside) (works : (n : ℕ) → o.send_fault n ≡ none) (cfg : Config) (l : Link) (a p : Packet)
    (rest : List (Result Packet))
    → l.incoming ≡ ok a ∷ ok p ∷ rest
    → a.type ≡ packet_conn_ack
    → p.type ≡ packet_publish
    → (handshake o cfg l).0 ≡ err not_sub_ack
unfolding handshake read_packet
handshake_refuses o works cfg l a p rest waits acks publishes =
    let connected =
      connect_reads o works cfg (("role", "bridge") ∷ []) l a (ok p ∷ rest) waits acks in
    let l₁ : Link = record l {
      incoming = ok p ∷ rest;
      outgoing = l.outgoing ++ hello o cfg (("role", "bridge") ∷ []) l ∷ [];
      calls = l.calls + 2;
    } in
    let (fine, kept, _) = subscribe_sends o works cfg (telemetry_filter ∷ []) l₁ in
    let differs : (p.type == packet_sub_ack) ≡ false = rw publishes refl in
    rw (handshake, connected, fine, kept, differs) refl

is_publish :
    (items : List OfflineMessage) (p : Packet) (ps : List Packet)
    → map to_packet items ≡ p ∷ ps
    → p.type ≡ packet_publish
unfolding to_packet
is_publish [] p ps h = cc
is_publish (x ∷ xs) p ps h = let same : to_packet x ≡ p = cc in ap (λ q. q.type) (sym same)

-- Every pending packet is a PUBLISH.
pending_is_publish :
    (jsonb : RawMessage → RawMessage) (client : String) (t : Tables) (p : Packet) (ps : List Packet)
    → pending jsonb none client t ≡ ok (p ∷ ps)
    → p.type ≡ packet_publish
unfolding pending
pending_is_publish jsonb client t p ps h =
    elim (Result-cases (get_offline_messages jsonb none client t)) [
      | inl (e, failed) ↦ ground (arith, failed, h)
      | inr (items, found) ↦
          let read : ok (map to_packet items) ≡ ok (p ∷ ps) = sym (ap to_packets found) ∙ h in
          is_publish items p ps cc
    ]

packets-on :
    (conn : ConnId) (ps : List Packet) → map (λ (r : ConnId × Packet). r.1) (on conn ps) ≡ ps
packets-on conn [] = refl
packets-on conn (p ∷ ps) = ap (λ l. p ∷ l) (packets-on conn ps)

-- what was sent on a connection is determined by the log
on-cancel :
    (before : List (ConnId × Packet)) (conn : ConnId) (ps qs : List Packet)
    → before ++ on conn ps ≡ before ++ on conn qs
    → ps ≡ qs
on-cancel [] conn ps qs h =
    sym (packets-on conn ps) ∙ ap (map (λ (r : ConnId × Packet). r.1)) h ∙ packets-on conn qs
on-cancel (x ∷ xs) conn ps qs h = on-cancel xs conn ps qs cc

-- Where sends and statements work, the broker lets the bridge in by the CONNECT that it sends, and
-- telemetry is pending for the bridge, what `handleConnection` sends before its first packet makes
-- the bridge give up: the packet that it reads after its SUBSCRIBE is no SUBACK. The same packets are
-- pending afterwards.
pub bridge_stuck :
    (env : Env) (broker : Works env) (o : Outside) (works : (n : ℕ) → o.send_fault n ≡ none)
    (cfg : Config) (l : Link) (conn : ConnId) (s : Server) (claims : Claims) (p : Packet)
    (ps told : List Packet) (later : List (Result Packet))
    → let (who, s') = start env conn (ok (hello o cfg (("role", "bridge") ∷ []) l)) s in
      checked env (ok (hello o cfg (("role", "bridge") ∷ []) l)) s ≡ ok (cfg.client_id, claims)
      → pending env.jsonb none cfg.client_id s.tables ≡ ok (p ∷ ps)
      → s'.sent ≡ s.sent ++ on conn told
      → l.incoming ≡ map ok told ++ later
      → ((handshake o cfg l).0 ≡ err not_sub_ack)
        × (pending env.jsonb none cfg.client_id s'.tables ≡ ok (p ∷ ps))
unfolding conn_ack
bridge_stuck env broker o works cfg l conn s claims p ps told later known waiting sends waits =
    let received : Result Packet = ok (hello o cfg (("role", "bridge") ∷ []) l) in
    let (_, (now, present, sent), tables) =
      start_delivers env broker conn received s cfg.client_id claims (p ∷ ps) known waiting in
    let acked = conn_ack now "accepted" present in
    let same : told ≡ acked ∷ p ∷ ps =
      on-cancel s.sent conn told (acked ∷ p ∷ ps) (sym sends ∙ sent) in
    (
      handshake_refuses o works cfg l acked p (map ok ps ++ later)
          (waits ∙ ap (λ ts. map ok ts ++ later) same) refl
          (pending_is_publish env.jsonb cfg.client_id s.tables p ps waiting),
      ap (λ t. pending env.jsonb none cfg.client_id t) tables ∙ waiting,
    )

-- ===== src/Broker/Server/Connection/Arrives.antt =====
-- A packet that is published comes to a subscriber that is online.
use mathlib.Core.List.{Memᴰ}
use carbmq_core.Base.{
  ℕ, ◌+◌, pos, ltb_ℤ, String, true, false, List, Option, none, some, ◌≡◌, ◌≢◌, refl, arith, ap, sym,
  subst, Bool-cases, inl, inr, ◌==◌, eq_iff,
}
use carbmq_core.Db.Tables.Rows.{mem-append_left}
use carbmq_core.Errors.{Error}
use carbmq_core.Qtt.Packet.{Packet, Subscription}
use carbmq_core.Qtt.Topic.{match_topic}
use carbmq_core.Auth.Claims.{Claims}
use carbmq_core.Auth.Acl.{can_publish}
use carbmq_core.Db.Messages.{save_message, insert_message, message_row}
use carbmq_core.Broker.Session.{ConnId, get}
use carbmq_core.Broker.Subscription.{Match, list}
use carbmq_core.Broker.Subscription.Matching.{match_of}
use carbmq_core.Broker.State.{Env, Server, Works, send, send_built, count}
use carbmq_core.Broker.Router.{outbound_for, route}
use carbmq_core.Broker.Router.Delivery.{outbound_for_lem}
use carbmq_core.Broker.Router.Outcomes.{target_conn}
use carbmq_core.Broker.Router.Live.{route_arrives}
use carbmq_core.Broker.Server.{
  inbound_message, stamped, save, saved, acknowledged, counted_send, handle_publish,
}

-- every key is among the keys in the order in which they are visited
abbrev pub VisitsAll : Env → Type 0
VisitsAll env = (n : ℕ) (k : String) (ks : List String) → Memᴰ k ks → Memᴰ k (env.client_order n ks)

-- A copy of a published packet, as its subscribers get it.
pub record IsCopy (client : String) (p q : Packet) : Type 0 where
  pub type : q.type ≡ p.type
  pub topic : q.topic ≡ p.topic
  pub payload : q.payload ≡ p.payload
  pub sender : q.client_id ≡ client

module _ (env : Env) (works : Works env) (conn : ConnId) where
  acknowledged_works :
      (p : Packet) (r : (ℕ × Option Error) × Server) (x : ConnId × Packet)
      → r.0.1 ≡ none
      → Memᴰ x r.1.sent
      → ((acknowledged env conn p r).0 ≡ none) × Memᴰ x (acknowledged env conn p r).1.sent
  unfolding acknowledged counted_send send_built send
  acknowledged_works p ((d, some e), s) x fine there = cc
  acknowledged_works p ((d, none), s) x fine there = elim (Bool-cases (ltb_ℤ (pos 0) p.qos)) [
    | inr free ↦ rw free (refl, there)
    | inl asks ↦ rw (asks, works.sends (s.calls + 1)) (refl, mem-append_left s.sent _ there)
  ]

  saved_works :
      (p : Packet) (s : Server) (client : String) (sub : Subscription) (c : ConnId)
      → VisitsAll env
      → Memᴰ sub (list client s.subscriptions)
      → match_topic sub.topic p.topic ≡ true
      → target_conn (get client s.sessions) ≡ some c
      → let (e, s') = saved env conn p (save env p s) in
        (e ≡ none) × Memᴰ (c, outbound_for p (match_of client sub)) s'.sent
  unfolding save saved save_message
  saved_works p s client sub c visits listed fits online =
      let s₁ : Server = record s {
        tables = record s.tables {
          messages = insert_message (message_row (inbound_message p)) s.tables.messages;
        };
        calls = s.calls + 1;
      } in
      let stores : save env p s ≡ (none, s₁) = rw (save, works.stores s.calls) refl in
      let s₂ = count (λ m. record m { publishes = m.publishes + 1 }) s₁ in
      let (fine, there) =
        route_arrives env works p s₂ client sub c (visits s₂.calls) listed fits online in
      subst
        (λ (r : Option Error × Server).
          ((saved env conn p r).0 ≡ none)
          × Memᴰ (c, outbound_for p (match_of client sub)) (saved env conn p r).1.sent)
        (sym stores) (acknowledged_works p (route env p s₂) _ fine there)

  outbound-IsCopy :
      (from : String) (p : Packet) (s : Server) (m : Match)
      → IsCopy from p (outbound_for (stamped env from p s).0 m)
  unfolding stamped
  outbound-IsCopy from p s m =
      let (_, _, same) = outbound_for_lem (stamped env from p s).0 m in
      record {
        type = ap (λ (q : Packet). q.type) same;
        topic = ap (λ (q : Packet). q.topic) same;
        payload = ap (λ (q : Packet). q.payload) same;
        sender = ap (λ (q : Packet). q.client_id) same;
      }

  stamped_keeps :
      (from : String) (p : Packet) (s : Server)
      → let s' = (stamped env from p s).1 in
        (s'.sessions ≡ s.sessions) × (s'.subscriptions ≡ s.subscriptions)
  unfolding stamped
  stamped_keeps from p s = ground arith

  -- Where sends and statements work and the map of filters is visited whole, a publish that the ACL
  -- admits is accepted, and every client that is online with a filter that matches the topic is sent
  -- a copy on its connection: the same type, topic and payload, in the name of the publisher.
  pub handle_publish_arrives :
      (from : String) (claims : Claims) (p : Packet) (s : Server) (client : String)
      (sub : Subscription) (c : ConnId)
      → VisitsAll env
      → p.topic ≢ ""
      → can_publish claims p.topic ≡ none
      → Memᴰ sub (list client s.subscriptions)
      → match_topic sub.topic p.topic ≡ true
      → target_conn (get client s.sessions) ≡ some c
      → let (e, s') = handle_publish env conn from claims p s in
        (e ≡ none) × ((q : Packet) × IsCopy from p q × Memᴰ (c, q) s'.sent)
  unfolding handle_publish stamped
  handle_publish_arrives from claims p s client sub c visits given allowed listed fits online =
      let other : (p.topic == "") ≡ false = ground (arith, eq_iff p.topic "", given) in
      let (p', s₁) = stamped env from p s in
      let (sessions, subscriptions) = stamped_keeps from p s in
      let (fine, there) =
        saved_works p' s₁ client sub c visits (rw subscriptions listed) fits (rw sessions online) in
      rw (handle_publish, other, allowed)
        (fine, (outbound_for p' (match_of client sub), outbound-IsCopy from p s _, there))

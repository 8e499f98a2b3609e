-- ===== src/Broker/Router/Live.antt =====
-- Routing where sends and statements work.
use mathlib.Core.List.{Memᴰ}
use carbmq_core.Base.{
  ℕ, pos, ltb_ℤ, String, Bool, true, false, List, [], ◌∷◌, ◌++◌, Option, none, some, ◌≡◌, refl, ap,
  sym, ◌∙◌, subst, Bool-cases, Option-cases, inl, inr,
}
use carbmq_core.Db.Tables.Rows.{mem-append_last, mem-append_left}
use carbmq_core.Errors.{Error, ok}
use carbmq_core.Qtt.Packet.{Packet, Subscription}
use carbmq_core.Qtt.Topic.{match_topic}
use carbmq_core.Broker.Session.{Session, ConnId, get}
use carbmq_core.Broker.Subscription.{Match, list}
use carbmq_core.Broker.Subscription
use carbmq_core.Broker.Subscription.Matching.{match_of, match_complete}
use carbmq_core.Broker.State.{Env, Server, Works, send, called}
use carbmq_core.Db.Offline.{enqueue_offline_message}
use carbmq_core.Queue.Persistent
use carbmq_core.Broker.Router.{
  outbound_for, enqueue, enqueued, queue_offline, after_send, reachable, deliver_to, deliver,
  add_delivered, resume, route_matches, route,
}
use carbmq_core.Broker.Router.Delivery.{deliver-Keeps}
use carbmq_core.Broker.Router.Outcomes.{target_conn}
use carbmq_core.Broker.Router.Fanout.{route_matches-Grows}

module _ (env : Env) (works : Works env) (p : Packet) where
  queue_offline_works :
      (client : String) (q : Packet) (s : Server) → (queue_offline env client q s).0 ≡ ok false
  unfolding queue_offline enqueued enqueue Persistent.enqueue enqueue_offline_message
  queue_offline_works client q s = elim (Bool-cases (ltb_ℤ (pos 0) q.qos)) [
    | inl wanted ↦ rw (wanted, works.stores s.calls) refl
    | inr unwanted ↦ rw unwanted refl
  ]

  deliver_to_online :
      (target : Session) (q : Packet) (s : Server) (c : ConnId)
      → reachable target ≡ some c
      → ((deliver_to env target q s).0 ≡ ok true)
        × ((deliver_to env target q s).1.sent ≡ s.sent ++ (c, q) ∷ [])
  unfolding deliver_to after_send send
  deliver_to_online target q s c online =
      rw (deliver_to, online, send, works.sends s.calls) (refl, refl)

  deliver_to_works :
      (target : Session) (q : Packet) (s : Server)
      → (b : Bool) × ((deliver_to env target q s).0 ≡ ok b)
  unfolding deliver_to
  deliver_to_works target q s = elim (Option-cases (reachable target)) [
    | inr (c, online) ↦ (true, (deliver_to_online target q s c online).0)
    | inl away ↦ (false, rw (deliver_to, away) (queue_offline_works target.client_id q s))
  ]

  -- a client that is online is sent its copy
  deliver_online :
      (m : Match) (s : Server) (c : ConnId)
      → target_conn (get m.client_id s.sessions) ≡ some c
      → ((deliver env p m s).0 ≡ ok true)
        × ((deliver env p m s).1.sent ≡ s.sent ++ (c, outbound_for p m) ∷ [])
  unfolding deliver
  deliver_online m s c online = elim (Option-cases (get m.client_id s.sessions)) [
    | inl absent ↦ let impossible : none ≡ some c = sym (ap target_conn absent) ∙ online in (cc, cc)
    | inr (target, found) ↦
        rw (deliver, found)
          (deliver_to_online target (outbound_for p m) s c (sym (ap target_conn found) ∙ online))
  ]

  deliver_works : (m : Match) (s : Server) → (b : Bool) × ((deliver env p m s).0 ≡ ok b)
  unfolding deliver
  deliver_works m s = elim (Option-cases (get m.client_id s.sessions)) [
    | inl absent ↦ (false, rw (deliver, absent) refl)
    | inr (target, found) ↦
        let (b, fine) = deliver_to_works target (outbound_for p m) s in
        (b, rw (deliver, found) fine)
  ]

  -- a round whose delivery works is followed by the others
  next_round :
      (m : Match) (ms : List Match) (d : ℕ) (s : Server)
      → (b : Bool) × (route_matches env p (m ∷ ms) d s
          ≡ route_matches env p ms (add_delivered b d) (deliver env p m s).1)
  unfolding route_matches resume
  next_round m ms d s =
      let (b, fine) = deliver_works m s in (b, rw (route_matches, resume, fine) refl)

  route_matches_works :
      (ms : List Match) (d : ℕ) (s : Server) → (route_matches env p ms d s).0.1 ≡ none
  unfolding route_matches
  route_matches_works [] d s = refl
  route_matches_works (m ∷ ms) d s =
      let (b, goes_on) = next_round m ms d s in
      ap (λ (r : (ℕ × Option Error) × Server). r.0.1) goes_on
      ∙ route_matches_works ms (add_delivered b d) (deliver env p m s).1

  -- the copy for a match whose client is online is among what was sent
  route_matches_arrives :
      (ms : List Match) (d : ℕ) (s : Server) {m : Match} (c : ConnId)
      → Memᴰ m ms
      → target_conn (get m.client_id s.sessions) ≡ some c
      → Memᴰ (c, outbound_for p m) (route_matches env p ms d s).1.sent
  unfolding route_matches
  route_matches_arrives [] d s c listed online = elim listed [ ]
  route_matches_arrives (x ∷ ms) d s {m} c listed online =
      let (b, goes_on) = next_round x ms d s in
      let s₁ = (deliver env p x s).1 in
      subst (λ (r : (ℕ × Option Error) × Server). Memᴰ (c, outbound_for p m) r.1.sent) (sym goes_on)
        (elim listed [
          | Memᴰ.head same ↦
              let own =
                sym (ap (λ (k : Match). target_conn (get k.client_id s.sessions)) same) ∙ online in
              let (_, sent) = deliver_online x s c own in
              let here : Memᴰ (c, outbound_for p x) s₁.sent = rw sent (mem-append_last _ s.sent) in
              let ((new, grows), _) = route_matches-Grows env p ms (add_delivered b d) s₁ in
              subst
                (λ k.
                  Memᴰ (c, outbound_for p k) (route_matches env p ms (add_delivered b d) s₁).1.sent)
                (sym same) (rw grows (mem-append_left s₁.sent new here))
          | Memᴰ.tail more ↦
              let still =
                ap (λ l. target_conn (get m.client_id l)) (deliver-Keeps env p x s).sessions
                ∙ online in
              route_matches_arrives ms (add_delivered b d) s₁ c more still
        ])

-- Routing works, and what it sends holds, for every filter of a client that is online which matches
-- the topic, the copy for it on the client's connection.
pub route_arrives :
    (env : Env) (works : Works env) (p : Packet) (s : Server) (client : String) (sub : Subscription)
    (c : ConnId)
    → ((k : String) (ks : List String) → Memᴰ k ks → Memᴰ k (env.client_order s.calls ks))
    → Memᴰ sub (list client s.subscriptions)
    → match_topic sub.topic p.topic ≡ true
    → target_conn (get client s.sessions) ≡ some c
    → ((route env p s).0.1 ≡ none)
      × Memᴰ (c, outbound_for p (match_of client sub)) (route env p s).1.sent
unfolding route
route_arrives env works p s client sub c visits listed fits online =
    let matches = Subscription.match (env.client_order s.calls) p.topic s.subscriptions in
    let found =
      match_complete (env.client_order s.calls) p.topic client s.subscriptions sub visits listed
        fits in
    (
      route_matches_works env works p matches 0 (called s),
      route_matches_arrives env works p matches 0 (called s) c found online,
    )

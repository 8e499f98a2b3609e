-- ===== src/Broker/Router/Reach.antt =====
-- A published packet reaches its subscribers.
use mathlib.Core.List.{Memᴰ}
use carbmq_core.Base.{
  ℕ, ◌+◌, String, Bool, true, List, [], ◌∷◌, ◌++◌, Option, none, ◌≡◌, refl, arith, subst, All, some,
  pos, ltb_ℤ, false, ◌⊎◌, inl, inr, ap, ◌∙◌, All-mem, length,
}
use carbmq_core.Errors.{Error, Result, ok, err}
use carbmq_core.Qtt.Packet.{Packet, Subscription}
use carbmq_core.Qtt.Topic.{match_topic}
use carbmq_core.Broker.Session.{ConnId, get}
use carbmq_core.Broker.Subscription.{Match, list}
use carbmq_core.Broker.Subscription
use carbmq_core.Broker.Subscription.Matching.{match_of, match_complete}
use carbmq_core.Broker.State.{Env, Server, called}
use carbmq_core.Broker.Router.{add_delivered, outbound_for, deliver, resume, route_matches, route}
use carbmq_core.Broker.Router.Delivery.{Keeps, deliver-Keeps, outbound_for_lem}
use carbmq_core.Broker.Router.Queued.{rows_of, RowFor, has_packet-mem, route_matches-Queues}
use carbmq_core.Db.Tables.{OfflineMessage}
use carbmq_core.Db.Offline.Laws.{IsKeyed}
use carbmq_core.Broker.Router.Outcomes.{Outcome, target_conn, deliver-Outcome}
use carbmq_core.Broker.Router.Fanout.{
  SentFor, Handled, Grows, Handled-Grows, Outcome-Handled, route_matches-Fanout,
  route_matches-Grows, route_matches-Keeps,
}

module _ (env : Env) (p : Packet) where
  resume-Handled :
      (m : Match) (ms : List Match) (rest : ℕ → Server → (ℕ × Option Error) × Server)
      (h : (d : ℕ) (s : Server)
        → (rest d s).0.1 ≡ none
        → All (Handled env p s.sessions (rest d s).1) ms)
      (g : (d : ℕ) (s : Server) → Grows env p s (rest d s).1) (d : ℕ) (s s' : Server)
      (r : Result Bool)
      → Outcome s s' (outbound_for p m) (get m.client_id s.sessions) r
      → Keeps s s'
      → (resume rest d (r, s')).0.1 ≡ none
      → All (Handled env p s.sessions (resume rest d (r, s')).1) (m ∷ ms)
  unfolding resume
  resume-Handled m ms rest h g d s s' (err e) out k n = cc
  resume-Handled m ms rest h g d s s' (ok b) out k n =
      let end = (rest (add_delivered b d) s').1 in
      (
        Handled-Grows env p s.sessions s' end m (g _ s') (Outcome-Handled env p m s s' out b refl),
        subst (λ l. All (Handled env p l end) ms) k.sessions (h _ s' n),
      )

  route_matches-Handled :
      (ms : List Match) (d : ℕ) (s : Server)
      → (route_matches env p ms d s).0.1 ≡ none
      → All (Handled env p s.sessions (route_matches env p ms d s).1) ms
  unfolding route_matches
  route_matches-Handled [] d s n = tt
  route_matches-Handled (m ∷ ms) d s n =
      resume-Handled m ms (route_matches env p ms) (route_matches-Handled ms)
        (route_matches-Grows env p ms) d s (deliver env p m s).1 (deliver env p m s).0
        (deliver-Outcome env p m s) (deliver-Keeps env p m s) n

  -- the matches of the packet in the state
  abbrev pub matches_in : Server → List Match
  matches_in s = Subscription.match (env.client_order s.calls) p.topic s.subscriptions

-- Routing answers the number of packets that it sent, counts as many, and each of them is the copy
-- for a match of the topic, on the connection of that match's client, which was online.
pub route_sends :
    (env : Env) (p : Packet) (s : Server)
    → let ((delivered, _), s') = route env p s in
      (new : List (ConnId × Packet)) × (s'.sent ≡ s.sent ++ new)
      × (delivered ≡ length new)
      × (s'.metrics.packets_out ≡ s.metrics.packets_out + length new)
      × All (SentFor env p s.sessions (matches_in env p s)) new
unfolding route
route_sends env p s =
    let (new, sent, total, counts, made) =
      route_matches-Fanout env p (matches_in env p s) 0 (called s) in
    (new, sent, omega (arith, total), counts, made)

-- What has become of a match: its client is unknown, its copy has quality of service 0, its copy is
-- sent on its client's connection, or the queue has a row with the packet's id, which was there before
-- or is the copy for a match, under that match's client.
abbrev pub Served : Env → Packet → Server → Server → Match → Type 0
Served env p s s' m =
    (get m.client_id s.sessions ≡ none)
    ⊎ (ltb_ℤ (pos 0) (outbound_for p m).qos ≡ false)
    ⊎ ((c : ConnId) × (target_conn (get m.client_id s.sessions) ≡ some c)
        × Memᴰ (c, outbound_for p m) s'.sent)
    ⊎ ((row : OfflineMessage) × Memᴰ row (rows_of s')
        × (row.packet_id ≡ p.packet_id)
        × (Memᴰ row (rows_of s) ⊎ RowFor p s.sessions (matches_in env p s) row))

Served-Handled :
    (env : Env) (p : Packet) (s : Server) (m : Match)
    → Handled env p s.sessions (route env p s).1 m
    → Served env p s (route env p s).1 m
unfolding route
Served-Handled env p s m (inl a) = inl a
Served-Handled env p s m (inr (inl a)) = inr (inl a)
Served-Handled env p s m (inr (inr (inl a))) = inr (inr (inl a))
Served-Handled env p s m (inr (inr (inr a))) =
    let (row, listed, is) = has_packet-mem (outbound_for p m).packet_id _ a in
    let own = ap (λ (q : Packet). q.packet_id) (outbound_for_lem p m).2 in
    inr (
      inr (
        inr (
          row,
          listed,
          is ∙ own,
          route_matches-Queues env p (matches_in env p s) 0 (called s) row listed,
        )))

-- If the map of filters is visited whole and routing reports no error, then for every client with a
-- filter that matches the topic a copy was sent on its connection, or the offline queue has a row with
-- the packet's id, unless the copy has quality of service 0 or the client has no session. That row was
-- there before, or it is the copy for a match, under the client of that match's session: since the id
-- is the key, it may be another subscriber's.
pub route_reaches :
    (env : Env) (p : Packet) (s : Server) (client : String) (sub : Subscription)
    → ((k : String) (ks : List String) → Memᴰ k ks → Memᴰ k (env.client_order s.calls ks))
    → Memᴰ sub (list client s.subscriptions)
    → match_topic sub.topic p.topic ≡ true
    → (route env p s).0.1 ≡ none
    → Served env p s (route env p s).1 (match_of client sub)
unfolding route
route_reaches env p s client sub visits listed fits fine = Served-Handled env p s _ (
    All-mem (Handled env p s.sessions (route_matches env p (matches_in env p s) 0 (called s)).1)
      (matches_in env p s) (route_matches-Handled env p (matches_in env p s) 0 (called s) fine)
      (match_complete (env.client_order s.calls) p.topic client s.subscriptions sub visits listed
        fits))

pub route-Keeps : (env : Env) (p : Packet) (s : Server) → Keeps s (route env p s).1
unfolding route
route-Keeps env p s =
    let k = route_matches-Keeps env p (matches_in env p s) 0 (called s) in
    record {
      auth = k.auth;
      sessions = k.sessions;
      subscriptions = k.subscriptions;
      limiter = k.limiter;
      devices = k.devices;
      messages = k.messages;
      active = k.active;
      keyed = k.keyed;
    }

-- Routing changes no session, no filter, no rate window, no device, no stored message and not the
-- gauge of active sessions; and if no two rows of the offline queue have one packet id, that stays
-- so.
route_preserves :
    (env : Env) (p : Packet) (s : Server)
    → IsKeyed s.tables.offline_messages
    → let s' = (route env p s).1 in
      (s'.sessions ≡ s.sessions)
      × (s'.subscriptions ≡ s.subscriptions)
      × (s'.limiter ≡ s.limiter)
      × (s'.tables.devices ≡ s.tables.devices)
      × (s'.tables.messages ≡ s.tables.messages)
      × (s'.metrics.active_sessions ≡ s.metrics.active_sessions)
      × IsKeyed s'.tables.offline_messages
route_preserves env p s h =
    let k = route-Keeps env p s in
    (k.sessions, k.subscriptions, k.limiter, k.devices, k.messages, k.active, k.keyed h)

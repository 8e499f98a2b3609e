-- ===== src/Broker/Session/Counts.antt =====
-- How the session operations move the number of online sessions.
use carbmq_core.Base.{◌+◌, false, String, List, ◌≡◌, arith, Option-cases, inl, inr}
use carbmq_core.Base.Assoc.{lookup}
use carbmq_core.Qtt.Packet.{Time, Subscription}
use carbmq_core.Broker.Merge.{merge}
use carbmq_core.Broker.Session.{
  Session, Store, touch, add_subscriptions, online_count, upsert_connected, connected, get,
}
use carbmq_core.Broker.Session.Laws.{is_online, online_count-insert}

pub online_count-touch :
    (client : String) (now : Time) (sessions : Store)
    → online_count (touch client now sessions) ≡ online_count sessions
unfolding touch
online_count-touch client now sessions = elim (Option-cases (lookup client sessions)) [
  | inl absent ↦ ground arith
  | inr (s, found) ↦
      ground (arith, found, online_count-insert client (record s { last_seen_at = now }) sessions)
]

pub online_count-add_subscriptions :
    (client : String) (subs : List Subscription) (sessions : Store)
    → online_count (add_subscriptions client subs sessions) ≡ online_count sessions
unfolding add_subscriptions
online_count-add_subscriptions client subs sessions = elim (Option-cases (lookup client sessions)) [
  | inl absent ↦ ground arith
  | inr (s, found) ↦ ground (
    arith,
    found,
    online_count-insert client (record s { subscriptions = merge s.subscriptions subs }) sessions,
  )
]

-- A client that was not online is one more.
pub online_count-upsert_connected :
    (next : Session) (now seen : Time) (sessions : Store)
    → is_online (get next.client_id sessions) ≡ false
    → online_count (upsert_connected next now seen sessions).1 ≡ online_count sessions + 1
unfolding upsert_connected connected get
online_count-upsert_connected next now seen sessions away =
    let stored = connected (lookup next.client_id sessions) next now seen in
    elim (Option-cases (lookup next.client_id sessions)) [
      | inl absent ↦ ground (arith, absent, online_count-insert next.client_id stored sessions)
      | inr (old, found) ↦
          ground (arith, found, away, online_count-insert next.client_id stored sessions)
    ]

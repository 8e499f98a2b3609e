-- ===== src/Broker/Server/Connection/Consistent.antt =====
-- What the sessions, the registry, the queue and the gauge of a broker agree on.
use carbmq_core.Base.{String, true, List, [], ◌≡◌, arith, eq_iff}
use carbmq_core.Qtt.Packet.{Time, Subscription}
use carbmq_core.Broker.Merge.{IsDistinct}
use carbmq_core.Broker.Session.{
  Session, Store, is_some, get, touch, disconnect, add_subscriptions, upsert_connected,
  online_count,
}
use carbmq_core.Broker.Session.Laws.{
  stored_subscriptions, is_online, conn_of, touch-get, disconnect-get, add_subscriptions-get,
  upsert_connected-get,
}
use carbmq_core.Broker.Subscription.{Registry, list, add}
use carbmq_core.Broker.Subscription.Laws.{list-add, add-IsDistinct}
use carbmq_core.Broker.State.{Server}
use carbmq_core.Db.Offline.Laws.{IsKeyed}

-- The registry has of every client the filters of its session, each topic once; a session is online
-- just if it has a connection.
pub record Agree (sessions : Store) (registry : Registry) : Type 0 where
  pub filters : (c : String) → list c registry ≡ stored_subscriptions (get c sessions)
  pub distinct : (c : String) → IsDistinct (list c registry)
  pub online : (c : String) → is_online (get c sessions) ≡ is_some (conn_of (get c sessions))

-- A broker whose parts agree: the gauge of active sessions is the number of online sessions, and no
-- two rows of the offline queue have one packet id.
pub record IsValid (s : Server) : Type 0 where
  pub agree : Agree s.sessions s.subscriptions
  pub gauge : s.metrics.active_sessions ≡ online_count s.sessions
  pub keyed : IsKeyed s.tables.offline_messages

pub touch-Agree :
    (client : String) (now : Time) (sessions : Store) (registry : Registry)
    → Agree sessions registry
    → Agree (touch client now sessions) registry
touch-Agree client now sessions registry h = record {
  filters = λ c. ground (arith, h.filters c, touch-get client c now sessions);
  distinct = h.distinct;
  online = λ c. ground (arith, h.online c, touch-get client c now sessions);
}

pub subscribe-Agree :
    (client : String) (subs : List Subscription) (sessions : Store) (registry : Registry)
    → is_some (get client sessions) ≡ true
    → Agree sessions registry
    → Agree (add_subscriptions client subs sessions) (add client subs registry)
subscribe-Agree client subs sessions registry there h = record {
  filters = λ c. ground (
    arith,
    there,
    h.filters c,
    add_subscriptions-get client c subs sessions,
    list-add client c subs registry,
    eq_iff client c,
  );
  distinct = λ c. add-IsDistinct client c subs registry h.distinct;
  online = λ c. ground (arith, h.online c, add_subscriptions-get client c subs sessions);
}

pub disconnect-Agree :
    (client : String) (now : Time) (sessions : Store) (registry : Registry)
    → Agree sessions registry
    → Agree (disconnect client now sessions) registry
disconnect-Agree client now sessions registry h = record {
  filters = λ c. ground (arith, h.filters c, disconnect-get client c now sessions, eq_iff c client);
  distinct = h.distinct;
  online = λ c. ground (arith, h.online c, disconnect-get client c now sessions, eq_iff c client);
}

pub connect-Agree :
    (next : Session) (now seen : Time) (sessions : Store) (registry : Registry)
    → next.subscriptions ≡ []
    → is_some next.conn ≡ true
    → Agree sessions registry
    → Agree (upsert_connected next now seen sessions).1 registry
connect-Agree next now seen sessions registry fresh conn h = record {
  filters = λ c. ground (
    arith,
    h.filters c,
    upsert_connected-get next now seen sessions c fresh,
    eq_iff c next.client_id,
  );
  distinct = h.distinct;
  online = λ c. ground (
    arith,
    h.online c,
    conn,
    upsert_connected-get next now seen sessions c fresh,
    eq_iff c next.client_id,
  );
}

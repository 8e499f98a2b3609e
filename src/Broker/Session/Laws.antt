-- ===== src/Broker/Session/Laws.antt =====
-- What the session operations do to every client's session.
use carbmq_core.Base.{
  ℕ, ◌+◌, String, Bool, true, false, List, [], ◌∷◌, Option, none, some, if◌then◌else◌, ◌≡◌, arith,
  eq_iff, eq_refl, ◌==◌, ◌&&◌, Option-cases, inl, inr, ◌⊎◌,
}
use carbmq_core.Base.Assoc.{lookup, insert, lookup-insert}
use carbmq_core.Qtt.Packet.{Time, Subscription}
use carbmq_core.Broker.Merge.{merge}
use carbmq_core.Broker.Session.{
  Session, Store, ConnId, is_some, upsert_connected, add_subscriptions, touch, disconnect, get,
  online_count, connected,
}

-- The subscriptions of a client's session, if it has one.
abbrev pub stored_subscriptions : Option Session → List Subscription
stored_subscriptions none = []
stored_subscriptions (some s) = s.subscriptions

abbrev pub is_online : Option Session → Bool
is_online none = false
is_online (some s) = s.online

abbrev pub conn_of : Option Session → Option ConnId
conn_of none = none
conn_of (some s) = s.conn

-- A connecting client, which brings no subscriptions of its own, has afterwards an online session
-- with the new connection and the subscriptions that it had before, which are returned with the
-- answer whether there was a session; nobody else's session changes.
pub upsert_connected-get :
    (next : Session) (now seen : Time) (sessions : Store) (client : String)
    → next.subscriptions ≡ []
    → let (r, sessions') = upsert_connected next now seen sessions in
      let before = get next.client_id sessions in
      let after = get next.client_id sessions' in
      (r.0 ≡ is_some before)
      × (r.1 ≡ stored_subscriptions before)
      × (is_online after ≡ true)
      × (conn_of after ≡ next.conn)
      × (stored_subscriptions after ≡ stored_subscriptions before)
      × ((client ≡ next.client_id) ⊎ (get client sessions' ≡ get client sessions))
unfolding upsert_connected get
upsert_connected-get next now seen sessions client e =
    let stored = connected (lookup next.client_id sessions) next now seen in
    ground (
      arith,
      lookup-insert next.client_id next.client_id stored sessions,
      lookup-insert next.client_id client stored sessions,
      eq_refl next.client_id,
      eq_iff next.client_id client,
    )

-- `Get` finds what is stored.
get-eq-lookup : (client : String) (sessions : Store) → get client sessions ≡ lookup client sessions
unfolding get
get-eq-lookup client sessions = ground arith

-- A disconnected session stays, offline and with no connection, and keeps its subscriptions; nobody
-- else's session changes.
pub disconnect-get :
    (client other : String) (now : Time) (sessions : Store)
    → let before = get client sessions in
      let after = get client (disconnect client now sessions) in
      (is_some after ≡ is_some before)
      × (is_online after ≡ false)
      × (conn_of after ≡ none)
      × (stored_subscriptions after ≡ stored_subscriptions before)
      × ((other ≡ client) ⊎ (get other (disconnect client now sessions) ≡ get other sessions))
unfolding disconnect get
disconnect-get client other now sessions = elim (Option-cases (lookup client sessions)) [
  | inl absent ↦ ground arith
  | inr (s, found) ↦
      let gone = record s { online = false; conn = none; last_seen_at = now } in
      ground (
        arith,
        found,
        lookup-insert client client gone sessions,
        lookup-insert client other gone sessions,
        eq_refl client,
        eq_iff client other,
      )
]

pub touch-get :
    (client other : String) (now : Time) (sessions : Store)
    → let before = get other sessions in
      let after = get other (touch client now sessions) in
      (is_some after ≡ is_some before)
      × (is_online after ≡ is_online before)
      × (conn_of after ≡ conn_of before)
      × (stored_subscriptions after ≡ stored_subscriptions before)
unfolding touch get
touch-get client other now sessions = elim (Option-cases (lookup client sessions)) [
  | inl absent ↦ ground arith
  | inr (s, found) ↦ ground (
    arith,
    found,
    lookup-insert client other (record s { last_seen_at = now }) sessions,
    eq_iff client other,
  )
]

-- New subscriptions are merged into those of the client's session, if it has one, and change
-- nothing else.
pub add_subscriptions-get :
    (client other : String) (subs : List Subscription) (sessions : Store)
    → let before = get other sessions in
      let after = get other (add_subscriptions client subs sessions) in
      (is_some after ≡ is_some before)
      × (is_online after ≡ is_online before)
      × (conn_of after ≡ conn_of before)
      × (stored_subscriptions after ≡ (
          if client == other && is_some before
          then merge (stored_subscriptions before) subs
          else stored_subscriptions before))
unfolding add_subscriptions get
add_subscriptions-get client other subs sessions = elim (Option-cases (lookup client sessions)) [
  | inl absent ↦ ground (arith, eq_iff client other)
  | inr (s, found) ↦ ground (
    arith,
    found,
    lookup-insert client other (record s { subscriptions = merge s.subscriptions subs }) sessions,
    eq_iff client other,
  )
]

-- A client that comes back after its connection ended is told that its session is there, and gets
-- the subscriptions that it had before it left.
upsert_connected-disconnect :
    (left now seen : Time) (next before : Session) (sessions : Store)
    → next.subscriptions ≡ []
    → get next.client_id sessions ≡ some before
    → (upsert_connected next now seen (disconnect next.client_id left sessions)).0
      ≡ (true, before.subscriptions)
upsert_connected-disconnect left now seen next before sessions fresh found =
    let client = next.client_id in
    let gone = disconnect client left sessions in
    let (present, restored, _, _, _, _) = upsert_connected-get next now seen gone client fresh in
    let (stays, _, _, kept, _) = disconnect-get client client left sessions in
    ground (arith, found, present, restored, stays, kept)

-- the part of the count that an entry makes
abbrev count_one : Bool → ℕ
count_one true = 1
count_one false = 0

pub online_count-insert :
    (client : String) (s : Session) (sessions : Store)
    → online_count (insert client s sessions) + count_one (is_online (lookup client sessions))
      ≡ online_count sessions + count_one s.online
unfolding online_count insert lookup
online_count-insert client s [] = ground arith
online_count-insert client s ((k, old) ∷ sessions) =
    ground (arith, online_count-insert client s sessions)

-- The number of online sessions falls by one when an online client's connection ends, and stays
-- when there was none.
online_count-disconnect :
    (client : String) (now : Time) (sessions : Store)
    → online_count (disconnect client now sessions) + count_one (is_online (get client sessions))
      ≡ online_count sessions
unfolding disconnect get
online_count-disconnect client now sessions = elim (Option-cases (lookup client sessions)) [
  | inl absent ↦ ground arith
  | inr (s, found) ↦ ground (
    arith,
    found,
    online_count-insert client (record s { online = false; conn = none; last_seen_at = now })
        sessions,
  )
]

-- ===== src/Broker/Session.antt =====
-- internal/broker/session/store.go: the sessions, by client.
pub mod Laws
pub mod Counts
use carbmq_core.Base.{
  ℕ, suc, String, Bool, true, false, List, [], ◌∷◌, ◌++◌, Option, none, some, if◌then◌else◌,
}
use carbmq_core.Base.Assoc.{lookup, insert}
use carbmq_core.Qtt.Packet.{Time, is_zero, Subscription}
use carbmq_core.Auth.Claims.{Claims}
use carbmq_core.Broker.Merge.{merge}

-- A `connection.PacketConn`, by identity.
abbrev pub ConnId : Type 0
ConnId = ℕ

pub record Session : Type 0 where
  pub client_id : String
  pub device_id : String
  pub role : String
  pub claims : Claims
  pub conn : Option ConnId
  pub online : Bool
  pub subscriptions : List Subscription
  pub connected_at : Time
  pub last_seen_at : Time

-- `Store`, the map under the mutex. Each operation below holds the mutex throughout.
abbrev pub Store : Type 0
Store = List (String × Session)

abbrev pub is_some {ℓ} : {A : Type ℓ} → Option A → Bool
is_some none = false
is_some (some a) = true

abbrev subscriptions_of : Option Session → List Subscription → List Subscription
subscriptions_of none subs = subs
subscriptions_of (some existing) subs = [] ++ existing.subscriptions

-- The session that `UpsertConnected` stores; `now` is its first reading of the clock, if it makes
-- two, and `seen` its last.
connected : Option Session → Session → (now seen : Time) → Session
connected existing next now seen = record next {
  subscriptions = subscriptions_of existing next.subscriptions;
  online = true;
  connected_at = if is_zero next.connected_at then now else next.connected_at;
  last_seen_at = seen;
}

-- `UpsertConnected`
unfoldable pub upsert_connected :
    Session → (now seen : Time) → Store → (Bool × List Subscription) × Store
unfolding connected
upsert_connected next now seen sessions =
    let existing = lookup next.client_id sessions in
    let stored = connected existing next now seen in
    ((is_some existing, [] ++ stored.subscriptions), insert next.client_id stored sessions)

-- `AddSubscriptions`
unfoldable pub add_subscriptions : String → List Subscription → Store → Store
add_subscriptions client_id subs sessions = elim (lookup client_id sessions) [
  | none ↦ sessions
  | some session ↦
      insert client_id (record session { subscriptions = merge session.subscriptions subs })
        sessions
]

-- `Touch`
unfoldable pub touch : String → Time → Store → Store
touch client_id now sessions = elim (lookup client_id sessions) [
  | none ↦ sessions
  | some session ↦ insert client_id (record session { last_seen_at = now }) sessions
]

-- `Disconnect`
unfoldable pub disconnect : String → Time → Store → Store
disconnect client_id now sessions = elim (lookup client_id sessions) [
  | none ↦ sessions
  | some session ↦
      insert client_id (record session { online = false; conn = none; last_seen_at = now }) sessions
]

-- `Get`: a copy, with the subscriptions copied.
unfoldable pub get : String → Store → Option Session
get client_id sessions = elim (lookup client_id sessions) [
  | none ↦ none
  | some session ↦ some (record session { subscriptions = [] ++ session.subscriptions })
]

-- `OnlineCount`
unfoldable pub online_count : Store → ℕ
online_count [] = 0
online_count ((k, session) ∷ sessions) =
    let rest = online_count sessions in if session.online then suc rest else rest

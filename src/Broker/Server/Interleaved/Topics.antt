-- ===== src/Broker/Server/Interleaved/Topics.antt =====
-- The topics of merged subscriptions.
use carbmq_core.Base.{
  ℤ, String, true, List, [], ◌∷◌, Option, none, some, if◌then◌else◌, ◌≡◌, ◌⊎◌, inl, inr, refl,
  arith, Bool-cases, Option-cases, ◌==◌, eq_iff, subst,
}
use carbmq_core.Qtt.Packet.{Subscription}
use carbmq_core.Auth.Claims.{Claims}
use carbmq_core.Auth.Acl.{can_subscribe}
use carbmq_core.Broker.Merge.{qos_of, last_qos}
use carbmq_core.Broker.Session.{is_some}
use carbmq_core.Broker.Server.{refused}

-- there is a subscription to the topic
abbrev pub Has : String → List Subscription → Type 0
Has topic subs = is_some (qos_of topic subs) ≡ true

-- one of the subscriptions that are asked for is to the topic
abbrev pub Asks : String → List Subscription → Type 0
Asks topic subs = is_some (last_qos topic subs none) ≡ true

pub last_qos-keeps :
    (topic : String) (subs : List Subscription) (o : Option ℤ)
    → is_some o ≡ true
    → is_some (last_qos topic subs o) ≡ true
unfolding last_qos
last_qos-keeps topic [] o h = h
last_qos-keeps topic (s ∷ subs) o h =
    last_qos-keeps topic subs (if s.topic == topic then some s.qos else o) (ground (arith, h))

pub last_qos-cases :
    (topic : String) (subs : List Subscription) (o : Option ℤ)
    → is_some (last_qos topic subs o) ≡ true
    → (is_some o ≡ true) ⊎ Asks topic subs
unfolding last_qos
last_qos-cases topic [] o h = inl h
last_qos-cases topic (s ∷ subs) o h = elim (Bool-cases (s.topic == topic)) [
  | inl same ↦
      let asked : is_some (last_qos topic subs (some s.qos)) ≡ true = rw (last_qos, same) at h in
      inr (rw (last_qos, same) asked)
  | inr other ↦
      let kept : is_some (last_qos topic subs o) ≡ true = rw (last_qos, other) at h in
      elim (last_qos-cases topic subs o kept) [
        | inl there ↦ inl there
        | inr asked ↦ inr (rw (last_qos, other) asked)
      ]
]

-- what is asked for is asked for whatever is there
pub asked_stays :
    (topic : String) (subs : List Subscription) (o : Option ℤ)
    → Asks topic subs
    → is_some (last_qos topic subs o) ≡ true
unfolding last_qos
asked_stays topic [] o h = absurd cc
asked_stays topic (s ∷ subs) o h = elim (Bool-cases (s.topic == topic)) [
  | inl same ↦ rw (last_qos, same) (last_qos-keeps topic subs (some s.qos) refl)
  | inr other ↦
      let asked : Asks topic subs = rw (last_qos, other) at h in
      rw (last_qos, other) (asked_stays topic subs o asked)
]

-- A topic that is asked for, where no filter is refused, may be subscribed to.
pub asked_allowed :
    (claims : Claims) (topic : String) (subs : List Subscription)
    → refused claims subs ≡ none
    → Asks topic subs
    → can_subscribe claims topic ≡ none
unfolding refused last_qos
asked_allowed claims topic [] fine h = absurd cc
asked_allowed claims topic (s ∷ subs) fine h = elim (Option-cases (can_subscribe claims s.topic)) [
  | inr (e, denied) ↦ absurd (ground (arith, denied, fine))
  | inl allowed ↦ elim (Bool-cases (s.topic == topic)) [
    | inl same ↦ subst (λ t. can_subscribe claims t ≡ none) ((eq_iff s.topic topic).0 same) allowed
    | inr other ↦
        asked_allowed claims topic subs (rw (refused, allowed) at fine) (rw (last_qos, other) at h)
  ]
]

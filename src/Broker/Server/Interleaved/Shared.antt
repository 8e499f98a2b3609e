-- ===== src/Broker/Server/Interleaved/Shared.antt =====
-- What holds of the sessions and the registry in every interleaving of the calls.
use carbmq_core.Base.{
  String, true, List, [], none, some, ◌≡◌, ◌≢◌, ◌⊎◌, inl, inr, false, ◌+◌, refl, arith, ap, sym,
  ◌∙◌, subst, eq_iff, Bool-cases, str_eq-cases, ◌==◌, ◌&&◌,
}
use carbmq_core.Auth.Claims.{Claims}
use carbmq_core.Auth.Acl.{can_subscribe}
use carbmq_core.Qtt.Packet.{Subscription, Time}
use carbmq_core.Broker.Merge.{merge, qos_of, last_qos, qos_of-merge}
use carbmq_core.Broker.Session.{Session, is_some, get, touch, ConnId}
use carbmq_core.Broker.Session.Laws.{
  stored_subscriptions, is_online, conn_of, touch-get, disconnect-get, add_subscriptions-get,
  upsert_connected-get,
}
use carbmq_core.Broker.Subscription.{list}
use carbmq_core.Broker.Subscription.Laws.{list-add}
use carbmq_core.Broker.State.{Env, Server}
use carbmq_core.Broker.Server.{upserted, registered, remembered, refused}
use carbmq_core.Broker.Server.Connection.{disconnected}
use carbmq_core.Broker.Server.Interleaved.Topics.{
  Has, Asks, last_qos-keeps, last_qos-cases, asked_stays, asked_allowed,
}

-- a topic that a client may subscribe to by the claims of some token of its own
abbrev pub Allowed : String → String → Type 0
Allowed client topic =
    (claims : Claims) × (can_subscribe claims topic ≡ none)
    × ((claims.role ≢ "device") ⊎ (claims.device_id ≡ client))

-- A session is online just if it has a connection; the topics of a session are topics of its client in
-- the registry; and those are topics that the client may subscribe to.
pub record IsShared (s : Server) : Type 0 where
  pub online : (c : String) → is_online (get c s.sessions) ≡ is_some (conn_of (get c s.sessions))
  pub known :
      (c topic : String)
      → Has topic (stored_subscriptions (get c s.sessions))
      → Has topic (list c s.subscriptions)
  pub allowed : (c topic : String) → Has topic (list c s.subscriptions) → Allowed c topic

-- No session and no topic is taken away.
pub record Grows (s s' : Server) : Type 0 where
  pub sessions :
      (c : String) → is_some (get c s.sessions) ≡ true → is_some (get c s'.sessions) ≡ true
  pub topics :
      (c topic : String) → Has topic (list c s.subscriptions) → Has topic (list c s'.subscriptions)

pub list-registered :
    (client c topic : String) (subs : List Subscription) (s : Server)
    → (qos_of topic (list c (registered client subs s).subscriptions)
          ≡ last_qos topic subs (qos_of topic (list c s.subscriptions)))
        × (client ≡ c)
      ⊎ (list c (registered client subs s).subscriptions ≡ list c s.subscriptions)
list-registered client c topic subs s = elim (str_eq-cases client c) [
  | inl (t, same) ↦ inl (
    ap (qos_of topic) (list-add client c subs s.subscriptions ∙ rw t refl)
        ∙ qos_of-merge topic (list c s.subscriptions) subs,
    same,
  )
  | inr (t, _) ↦ inr (list-add client c subs s.subscriptions ∙ rw t refl)
]

pub registered-Grows :
    (client : String) (subs : List Subscription) (s : Server) → Grows s (registered client subs s)
registered-Grows client subs s = record {
  sessions = λ c h. h;
  topics = λ c topic h. elim (list-registered client c topic subs s) [
    | inl (grown, _) ↦ ap is_some grown ∙ last_qos-keeps topic subs _ h
    | inr same ↦ ap (λ l. is_some (qos_of topic l)) same ∙ h
  ];
}

pub registered-IsShared :
    (client : String) (claims : Claims) (subs : List Subscription) (s : Server)
    → refused claims subs ≡ none
    → (claims.role ≢ "device") ⊎ (claims.device_id ≡ client)
    → IsShared s
    → IsShared (registered client subs s)
registered-IsShared client claims subs s fine own h = record {
  online = h.online;
  known = λ c topic k. (registered-Grows client subs s).topics c topic (h.known c topic k);
  allowed = λ c topic k. elim (list-registered client c topic subs s) [
    | inr same ↦ h.allowed c topic (sym (ap (λ l. is_some (qos_of topic l)) same) ∙ k)
    | inl (grown, same) ↦ elim (last_qos-cases topic subs _ (sym (ap is_some grown) ∙ k)) [
      | inl there ↦ h.allowed c topic there
      | inr asked ↦ (
        claims,
        asked_allowed claims topic subs fine asked,
        subst (λ d. (claims.role ≢ "device") ⊎ (claims.device_id ≡ d)) same own,
      )
    ]
  ];
}

-- every topic that was asked for is in the registry
pub registered-asked :
    (client topic : String) (subs : List Subscription) (s : Server)
    → Asks topic subs
    → Has topic (list client (registered client subs s).subscriptions)
registered-asked client topic subs s h = elim (str_eq-cases client client) [
  | inr (_, differs) ↦ absurd (differs refl)
  | inl (t, _) ↦
      ap is_some (
        ap (qos_of topic) (list-add client client subs s.subscriptions ∙ rw t refl)
        ∙ qos_of-merge topic (list client s.subscriptions) subs)
      ∙ asked_stays topic subs _ h
]

pub remembered-IsShared :
    (client : String) (subs : List Subscription) (s : Server)
    → ((topic : String) → Asks topic subs → Has topic (list client s.subscriptions))
    → IsShared s
    → IsShared (remembered client subs s)
remembered-IsShared client subs s asked h = record {
  online = λ c.
      let (_, on, conn, _) = add_subscriptions-get client c subs s.sessions in
      on ∙ h.online c ∙ sym (ap is_some conn);
  known = λ c topic k.
      let (_, _, _, subs') = add_subscriptions-get client c subs s.sessions in
      let mine = stored_subscriptions (get c s.sessions) in
      let k' = sym (ap (λ l. is_some (qos_of topic l)) subs') ∙ k in
      elim (Bool-cases (client == c && is_some (get c s.sessions))) [
        | inr other ↦ h.known c topic (rw other at k')
        | inl own ↦
            let merged : Has topic (merge mine subs) = rw own at k' in
            let same : client ≡ c = ground (arith, own, eq_iff client c) in
            elim (last_qos-cases topic subs (qos_of topic mine)
              (sym (ap is_some (qos_of-merge topic mine subs)) ∙ merged)) [
                | inl there ↦ h.known c topic there
                | inr a ↦ subst (λ d. Has topic (list d s.subscriptions)) same (asked topic a)
              ]
      ];
  allowed = h.allowed;
}

pub remembered-Grows :
    (client : String) (subs : List Subscription) (s : Server) → Grows s (remembered client subs s)
remembered-Grows client subs s = record {
  sessions = λ c h. (add_subscriptions-get client c subs s.sessions).0 ∙ h;
  topics = λ c topic h. h;
}

pub disconnected-IsShared :
    (env : Env) (client : String) (s : Server) → IsShared s → IsShared (disconnected env client s)
disconnected-IsShared env client s h = record {
  online = λ c.
      ground (
        arith,
        h.online c,
        disconnect-get client c (env.clock s.calls) s.sessions,
        eq_iff c client,
      );
  known = λ c topic k. elim ((disconnect-get client c (env.clock s.calls) s.sessions).4) [
    | inr same ↦
        h.known c topic (sym (ap (λ o. is_some (qos_of topic (stored_subscriptions o))) same) ∙ k)
    | inl own ↦
        let kept = (disconnect-get client c (env.clock s.calls) s.sessions).3 in
        let at_client =
          subst (λ d. Has topic (stored_subscriptions (get d (disconnected env client s).sessions)))
            own k in
        subst (λ d. Has topic (list d s.subscriptions)) (sym own)
          (h.known client topic (sym (ap (λ l. is_some (qos_of topic l)) kept) ∙ at_client))
  ];
  allowed = h.allowed;
}

pub disconnected-Grows :
    (env : Env) (client : String) (s : Server) → Grows s (disconnected env client s)
disconnected-Grows env client s = record {
  sessions = λ c h.
      ground (arith, h, disconnect-get client c (env.clock s.calls) s.sessions, eq_iff c client);
  topics = λ c topic h. h;
}

pub touch-IsShared :
    (client : String) (now : Time) (s : Server)
    → IsShared s
    → IsShared (record s { sessions = touch client now s.sessions })
touch-IsShared client now s h = record {
  online = λ c. ground (arith, h.online c, touch-get client c now s.sessions);
  known = λ c topic k.
      let (_, _, _, kept) = touch-get client c now s.sessions in
      h.known c topic (sym (ap (λ l. is_some (qos_of topic l)) kept) ∙ k);
  allowed = h.allowed;
}

pub touch-Grows :
    (client : String) (now : Time) (s : Server)
    → Grows s (record s { sessions = touch client now s.sessions })
touch-Grows client now s = record {
  sessions = λ c h. (touch-get client c now s.sessions).0 ∙ h;
  topics = λ c topic h. h;
}

-- the session that `authenticate` passes on
abbrev pub arriving : Env → ConnId → String → Claims → Server → Session
arriving env conn client claims s = record {
  client_id = client;
  device_id = claims.device_id;
  role = claims.role;
  claims = claims;
  conn = some conn;
  online = false;
  subscriptions = [];
  connected_at = env.clock s.calls;
  last_seen_at = env.clock (s.calls + 1);
}

pub upserted-IsShared :
    (env : Env) (conn : ConnId) (client : String) (claims : Claims) (s : Server)
    → IsShared s
    → IsShared (upserted env conn client claims s).1
upserted-IsShared env conn client claims s h =
    let after = λ (c : String).
      upsert_connected-get (arriving env conn client claims s) (env.clock (s.calls + 2))
        (env.clock (s.calls + 3)) s.sessions c refl in
    record {
      online = λ c. ground (arith, h.online c, after c, eq_iff c client);
      known = λ c topic k. elim (after c).5 [
        | inr same ↦
            h.known c topic
              (sym (ap (λ o. is_some (qos_of topic (stored_subscriptions o))) same) ∙ k)
        | inl own ↦
            let at_client =
              subst
                (λ d.
                  Has topic
                    (stored_subscriptions (get d (upserted env conn client claims s).1.sessions)))
                own k in
            subst (λ d. Has topic (list d s.subscriptions)) (sym own)
              (h.known client topic
                (sym (ap (λ l. is_some (qos_of topic l)) (after c).4) ∙ at_client))
      ];
      allowed = h.allowed;
    }

pub upserted-Grows :
    (env : Env) (conn : ConnId) (client : String) (claims : Claims) (s : Server)
    → Grows s (upserted env conn client claims s).1
upserted-Grows env conn client claims s =
    let after = λ (c : String).
      upsert_connected-get (arriving env conn client claims s) (env.clock (s.calls + 2))
        (env.clock (s.calls + 3)) s.sessions c refl in
    record {
      sessions = λ c k. ground (arith, k, after c, eq_iff c client);
      topics = λ c topic k. k;
    }

pub upserted-there :
    (env : Env) (conn : ConnId) (client : String) (claims : Claims) (s : Server)
    → is_some (get client (upserted env conn client claims s).1.sessions) ≡ true
upserted-there env conn client claims s =
    let after =
      upsert_connected-get (arriving env conn client claims s) (env.clock (s.calls + 2))
        (env.clock (s.calls + 3)) s.sessions client refl in
    ground (arith, after)

-- Nothing depends on what else a call changes.
pub same-IsShared :
    (s s' : Server)
    → s'.sessions ≡ s.sessions
    → s'.subscriptions ≡ s.subscriptions
    → IsShared s
    → IsShared s'
same-IsShared s s' a b h = record {
  online = λ c. rw a (h.online c);
  known = λ c topic k.
      subst (λ r. Has topic (list c r)) (sym b)
        (h.known c topic (subst (λ l. Has topic (stored_subscriptions (get c l))) a k));
  allowed = λ c topic k. h.allowed c topic (subst (λ r. Has topic (list c r)) b k);
}

pub same-Grows :
    (s s' : Server) → s'.sessions ≡ s.sessions → s'.subscriptions ≡ s.subscriptions → Grows s s'
same-Grows s s' a b = record {
  sessions = λ c h. subst (λ l. is_some (get c l) ≡ true) (sym a) h;
  topics = λ c topic h. subst (λ r. Has topic (list c r)) (sym b) h;
}

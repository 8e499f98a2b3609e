-- ===== src/Broker/Server/Connection/Refusals.antt =====
-- What a handler leaves alone when it refuses, and what it has stored when it does not.
use mathlib.Core.List.{Memᴰ}
use carbmq_core.Base.{
  ◌+◌, String, true, false, List, [], ◌∷◌, none, some, ◌≡◌, refl, arith, ap, sym, ◌∙◌, Option-cases,
  Bool-cases, inl, inr, ◌==◌, if◌then◌else◌,
}
use carbmq_core.Errors.{Error, missing_subscriptions}
use carbmq_core.Qtt.Packet.{Packet, Subscription}
use carbmq_core.Auth.Claims.{Claims}
use carbmq_core.Auth.Acl.{can_subscribe}
use carbmq_core.Broker.Session.{ConnId, get}
use carbmq_core.Broker.Session.Laws.{is_online, conn_of, stored_subscriptions, disconnect-get}
use carbmq_core.Broker.Limiter.{allow}
use carbmq_core.Broker.State.{Env, Server, send, send_built}
use carbmq_core.Broker.Server.{refused, is_empty, handle_subscribe}
use carbmq_core.Broker.Server.Connection.{noticed, limited, handle_packet, finish, send_error}
use carbmq_core.Db.Tables.{Tables}

refused-member :
    (claims : Claims) (subs : List Subscription) (sub : Subscription) (e : Error)
    → Memᴰ sub subs
    → can_subscribe claims sub.topic ≡ some e
    → (f : Error) × (refused claims subs ≡ some f)
unfolding refused
refused-member claims [] sub e m h = elim m [ ]
refused-member claims (x ∷ subs) sub e (Memᴰ.head same) h =
    (e, rw (refused, ap (λ (s : Subscription). can_subscribe claims s.topic) (sym same) ∙ h) refl)
refused-member claims (x ∷ subs) sub e (Memᴰ.tail m) h =
    elim (Option-cases (can_subscribe claims x.topic)) [
      | inr (f, denied) ↦ (f, rw (refused, denied) refl)
      | inl allowed ↦
          let (f, denied) = refused-member claims subs sub e m h in
          (f, rw (refused, allowed) denied)
    ]

-- One filter that the client may not subscribe to makes `handleSubscribe` fail, and then nothing is
-- stored, counted or sent, for the other filters either.
pub handle_subscribe_refused :
    (env : Env) (conn : ConnId) (client : String) (claims : Claims) (p : Packet) (s : Server)
    (sub : Subscription) (e : Error)
    → Memᴰ sub p.subscriptions
    → can_subscribe claims sub.topic ≡ some e
    → (f : Error) × (handle_subscribe env conn client claims p s ≡ (some f, s))
unfolding handle_subscribe
handle_subscribe_refused env conn client claims p s sub e m h =
    let (f, denied) = refused-member claims p.subscriptions sub e m h in
    elim (Bool-cases (is_empty p.subscriptions)) [
      | inl blank ↦ (missing_subscriptions, rw (handle_subscribe, blank) refl)
      | inr given ↦ (f, rw (handle_subscribe, given, denied) refl)
    ]

limited_lem :
    (env : Env) (conn : ConnId) (client : String) (claims : Claims) (p : Packet) (s : Server)
    → let (goes_on, s') = limited env conn client claims p false s in
      (goes_on ≡ true)
      × (s'.tables ≡ s.tables)
      × (s'.subscriptions ≡ s.subscriptions)
      × (s'.metrics.rate_limited ≡ s.metrics.rate_limited + 1)
unfolding limited send_error send_built send
limited_lem env conn client claims p s = elim (Option-cases (env.send_fault (s.calls + 1))) [
  | inl fine ↦ ground (arith, fine)
  | inr (e, fault) ↦ ground (arith, fault)
]

-- A packet that the limiter stops reaches no handler: no table and no filter of the registry
-- changes, the packet is counted, and the loop goes on.
handle_packet_limited :
    (env : Env) (conn : ConnId) (client : String) (claims : Claims) (p : Packet) (s : Server)
    → (allow (env.clock (s.calls + 1)) client s.limiter).0 ≡ false
    → let (goes_on, s') = handle_packet env conn client claims p s in
      (goes_on ≡ true)
      × (s'.tables ≡ s.tables)
      × (s'.subscriptions ≡ s.subscriptions)
      × (s'.metrics.rate_limited ≡ s.metrics.rate_limited + 1)
unfolding handle_packet noticed
handle_packet_limited env conn client claims p s h =
    let s₁ = noticed env client s in
    let (_, limiter) = allow (env.clock (s.calls + 1)) client s.limiter in
    rw (handle_packet, h)
      (limited_lem env conn client claims p (record s₁ { limiter = limiter; calls = s₁.calls + 1 }))

-- the id under which a packet is stored
abbrev pub stored_id : Env → Packet → Server → String
stored_id env p s = if p.packet_id == "" then env.new_packet_id s.calls else p.packet_id

-- The packet that is stored has this id and the client's own, and is the received one otherwise, but
-- for its time.
pub record IsStamped (env : Env) (client : String) (p : Packet) (s : Server) (q : Packet)
    : Type 0 where
  pub id : q.packet_id ≡ stored_id env p s
  pub sender : q.client_id ≡ client
  pub rest :
      record q { packet_id = p.packet_id; client_id = p.client_id; timestamp = p.timestamp } ≡ p

-- Whichever connection of a client ends, the client's session is offline and without a connection
-- afterwards, also when another connection of the client is open.
pub finish_offline :
    (env : Env) (client : String) (s : Server)
    → let after = get client (finish env client s).sessions in
      (is_online after ≡ false)
      × (conn_of after ≡ none)
      × (stored_subscriptions after ≡ stored_subscriptions (get client s.sessions))
unfolding finish
finish_offline env client s =
    let (_, away, gone, kept, _) = disconnect-get client client (env.clock s.calls) s.sessions in
    (away, gone, kept)

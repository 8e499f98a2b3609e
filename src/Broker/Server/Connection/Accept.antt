-- ===== src/Broker/Server/Connection/Accept.antt =====
-- Who is let in by `authenticate`, and what is stored for them.
use carbmq_core.Base.{
  none, ℕ, ◌+◌, ◌+◌, String, true, false, List, [], some, if◌then◌else◌, ◌≡◌, ◌≢◌, ◌⊎◌, refl, arith,
  ap, sym, ◌∙◌, subst, Option-cases, Bool-cases, inl, inr, ◌==◌, eq_iff,
}
use carbmq_core.Errors.{Result, Result-cases, ok, err}
use carbmq_core.Qtt.Packet.{Packet, Subscription, packet_connect}
use carbmq_core.Qtt.Builders.{conn_ack}
use carbmq_core.Auth.Claims.{Claims}
use carbmq_core.Auth.Jwt.{parse}
use carbmq_core.Broker.Session.{Session, Store, ConnId, get}
use carbmq_core.Broker.Session.Laws.{stored_subscriptions, is_online, conn_of, upsert_connected-get}
use carbmq_core.Broker.State.{Env, Server, called, send, send_built}
use carbmq_core.Broker.Server.{identify, established, accepted, welcome, checked, authenticate}
use carbmq_core.Broker.Server.Connection.Rounds.{welcome-Quiet}

-- The client that a packet and the claims of its token name.
pub record Identified (p : Packet) (claims : Claims) (client : String) : Type 0 where
  pub named : client ≡ (if p.client_id == "" then claims.client_id else p.client_id)
  pub not_empty : client ≢ ""
  pub own_device : (claims.role ≢ "device") ⊎ (claims.device_id ≡ client)

identify-Identified :
    (p : Packet) (claims : Claims) (client : String)
    → identify p claims ≡ ok client
    → Identified p claims client
unfolding identify
identify-Identified p claims client e = record {
  named = ground arith;
  not_empty = ground (arith, eq_iff client "");
  own_device = ground (arith, eq_iff claims.role "device", eq_iff claims.device_id client);
}

-- A CONNECT packet with a token that the service accepts, for a client that it names.
pub record Admits (env : Env) (received : Result Packet) (s : Server) (client : String)
    (claims : Claims) : Type 0 where
  pub packet : Packet
  pub arrived : received ≡ ok packet
  pub is_connect : packet.type ≡ packet_connect
  pub parsed : parse env.jwt s.auth (env.clock s.calls) packet.token ≡ ok claims
  pub identified : Identified packet claims client

pub checked-Admits :
    (env : Env) (received : Result Packet) (s : Server) (client : String) (claims : Claims)
    → checked env received s ≡ ok (client, claims)
    → Admits env received s client claims
unfolding checked
checked-Admits env (err e) s client claims h = cc
checked-Admits env (ok p) s client claims h = elim (Bool-cases (p.type == packet_connect)) [
  | inr other ↦ ground (arith, h)
  | inl connects ↦ elim (Result-cases (parse env.jwt s.auth (env.clock s.calls) p.token)) [
    | inl (e, refused) ↦ ground (arith, connects, refused, h)
    | inr (given, parsed) ↦ elim (Result-cases (identify p given)) [
      | inl (e, nobody) ↦ ground (arith, connects, parsed, nobody, h)
      | inr (who, known) ↦
          let same : (who ≡ client) × (given ≡ claims) =
            ground (arith, connects, parsed, known, h) in
          record {
            packet = p;
            arrived = refl;
            is_connect = (eq_iff p.type packet_connect).0 connects;
            parsed = parsed ∙ ap ok same.1;
            identified = identify-Identified p claims client (cc (known, same.0, same.1));
          }
    ]
  ]
]

-- What is stored for a client that connects.
pub record Connected (before after : Store) (conn : ConnId) (client : String)
    (subs : List Subscription) : Type 0 where
  pub online : is_online (get client after) ≡ true
  pub conn_is : conn_of (get client after) ≡ some conn
  pub restored : subs ≡ stored_subscriptions (get client before)
  pub kept : stored_subscriptions (get client after) ≡ subs

established-Connected :
    (env : Env) (conn : ConnId) (client : String) (claims : Claims) (s : Server)
    → let (r, s') = established env conn client claims s in
      Connected s.sessions s'.sessions conn client r.1
unfolding established
established-Connected env conn client claims s =
    let next : Session = record {
      client_id = client;
      device_id = claims.device_id;
      role = claims.role;
      claims = claims;
      conn = some conn;
      online = false;
      subscriptions = [];
      connected_at = env.clock s.calls;
      last_seen_at = env.clock (s.calls + 1);
    } in
    let (_, restored, online, conn_is, kept, _) =
      upsert_connected-get next (env.clock (s.calls + 2)) (env.clock (s.calls + 3)) s.sessions
        client refl in
    record { online = online; conn_is = conn_is; restored = restored; kept = kept ∙ sym restored }

welcome_ok :
    (env : Env) (conn : ConnId) (client : String) (claims : Claims) (s : Server) (who : String)
    (given : Claims) (subs : List Subscription)
    → (welcome env conn client claims s).0 ≡ ok (who, given, subs)
    → (client ≡ who) × (claims ≡ given) × ((established env conn client claims s).0.1 ≡ subs)
unfolding welcome accepted
welcome_ok env conn client claims s who given subs h =
    let (r, s') = established env conn client claims s in
    let sent = send_built env conn (λ now. conn_ack now "accepted" r.0) s' in
    elim (Option-cases sent.0) [
      | inl fine ↦ ground (arith, fine, h)
      | inr (e, fault) ↦ ground (arith, fault, h)
    ]

-- Where sends work, a client that is known is accepted.
pub welcome_accepts :
    (env : Env) (conn : ConnId) (client : String) (claims : Claims) (s : Server)
    → ((n : ℕ) → env.send_fault n ≡ none)
    → (welcome env conn client claims s).0
      ≡ ok (client, claims, (established env conn client claims s).0.1)
unfolding welcome accepted send_built send
welcome_accepts env conn client claims s works =
    let (r, s') = established env conn client claims s in ground (arith, works (s'.calls + 1))

pub authenticate-eq-welcome :
    (env : Env) (conn : ConnId) (received : Result Packet) (s : Server) (client : String)
    (claims : Claims)
    → checked env received s ≡ ok (client, claims)
    → authenticate env conn received s ≡ welcome env conn client claims (called s)
unfolding authenticate
authenticate-eq-welcome env conn received s client claims known = rw (authenticate, known) refl

-- If `authenticate` lets a client in, the connection's first packet was a CONNECT, its token was
-- accepted with the claims that are returned, the client is the one that the packet names, or else
-- the claims, and a device is the device of its token; the client has an online session on this
-- connection, with the subscriptions that it had, which are returned.
pub authenticate-Admits :
    (env : Env) (conn : ConnId) (received : Result Packet) (s : Server) (client : String)
    (claims : Claims) (subs : List Subscription)
    → (authenticate env conn received s).0 ≡ ok (client, claims, subs)
    → Admits env received s client claims
      × Connected s.sessions (authenticate env conn received s).1.sessions conn client subs
unfolding authenticate
authenticate-Admits env conn received s client claims subs h =
    elim (Result-cases (checked env received s)) [
      | inl (e, denied) ↦ ground (arith, denied, h)
      | inr ((who, given), known) ↦
          let enters = authenticate-eq-welcome env conn received s who given known in
          let (same, granted, stored) =
            welcome_ok env conn who given (called s) client claims subs
              (sym (ap (λ r. r.0) enters) ∙ h) in
          let at_once = established-Connected env conn who given (called s) in
          let placed = (established env conn who given (called s)).1.sessions in
          let sent = (welcome-Quiet env conn who given (called s)).sessions in
          let settled =
            ap (λ (r : Result (String × Claims × List Subscription) × Server). r.1.sessions) enters
            ∙ sent in
          (
            checked-Admits env received s client claims (cc (known, same, granted)),
            subst (λ x. Connected s.sessions x conn client subs) (sym settled)
                (subst (λ c. Connected s.sessions placed conn c subs) same
                  (subst (λ l. Connected s.sessions placed conn who l) stored at_once)),
          )
    ]

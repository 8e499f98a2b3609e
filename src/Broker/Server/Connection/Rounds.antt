-- ===== src/Broker/Server/Connection/Rounds.antt =====
-- A round of the loop, the start and the end of a connection keep the broker's parts in agreement.
use carbmq_core.Base.{
  ◌+◌, String, Bool, true, false, List, [], Option, none, some, ◌≡◌, refl, arith, sym, ◌∙◌, inl,
  inr, eq_iff,
}
use carbmq_core.Errors.{Error, Result, Result-cases, ok, err, error_text}
use carbmq_core.Qtt.Packet.{Packet, Subscription}
use carbmq_core.Qtt.Builders.{conn_ack}
use carbmq_core.Auth.Claims.{Claims}
use carbmq_core.Broker.Session.{Session, ConnId, is_some, get}
use carbmq_core.Broker.Session.Laws.{touch-get, disconnect-get, upsert_connected-get}
use carbmq_core.Broker.Session.Counts.{online_count-touch}
use carbmq_core.Broker.Limiter.{allow}
use carbmq_core.Broker.State.{Env, Server, called, send_built, count}
use carbmq_core.Broker.Server.{established, accepted, welcome, checked, authenticate}
use carbmq_core.Broker.Server.Connection.{noticed, limited, handle_packet, finish, opened, start}
use carbmq_core.Broker.Server.Connection.Consistent.{
  IsValid, touch-Agree, disconnect-Agree, connect-Agree,
}
use carbmq_core.Broker.Server.Connection.Handlers.{
  Sound, Quiet-Sound, Sound-Quiet, Quiet-then, Sound-trans, dispatch-Sound,
}
use carbmq_core.Broker.Server.Connection.Quiet.{
  Quiet, Quiet-trans, Quiet-IsValid, count-Quiet, send_built-Quiet, send_error-Quiet,
  deliver_offline-Quiet,
}

noticed-Sound :
    (env : Env) (client : String) (s : Server) → IsValid s → Sound s (noticed env client s)
unfolding noticed
noticed-Sound env client s h =
    let now = env.clock s.calls in
    record {
      valid = record {
        agree = touch-Agree client now s.sessions s.subscriptions h.agree;
        gauge = h.gauge ∙ sym (online_count-touch client now s.sessions);
        keyed = h.keyed;
      };
      stays = λ c old. (touch-get client c now s.sessions).0 ∙ old;
    }

limited-Sound :
    (env : Env) (conn : ConnId) (client : String) (claims : Claims) (p : Packet) (passed : Bool)
    (s : Server)
    → is_some (get client s.sessions) ≡ true
    → IsValid s
    → Sound s (limited env conn client claims p passed s).1
unfolding limited
limited-Sound env conn client claims p true s there h =
    dispatch-Sound env conn client claims p s there h
limited-Sound env conn client claims p false s there h =
    let s' = count (λ m. record m { rate_limited = m.rate_limited + 1 }) s in
    Quiet-Sound
      (Quiet-trans (count-Quiet (λ m. record m { rate_limited = m.rate_limited + 1 }) s refl)
        (send_error-Quiet env conn "RATE_LIMITED" "too many packets" s'))
      h

pub handle_packet-Sound :
    (env : Env) (conn : ConnId) (client : String) (claims : Claims) (p : Packet) (s : Server)
    → is_some (get client s.sessions) ≡ true
    → IsValid s
    → Sound s (handle_packet env conn client claims p s).1
unfolding handle_packet
handle_packet-Sound env conn client claims p s there h =
    let s₁ = noticed env client s in
    let (passed, limiter) = allow (env.clock s₁.calls) client s₁.limiter in
    let s₂ = record s₁ { limiter = limiter; calls = s₁.calls + 1 } in
    let counted : Quiet s₁ s₂ = record {
      sessions = refl;
      subscriptions = refl;
      active = refl;
      keyed = λ h. h;
    } in
    let before = Sound-Quiet (noticed-Sound env client s h) counted in
    Sound-trans before
      (limited-Sound env conn client claims p passed s₂ (before.stays client there) before.valid)

pub finish-Sound :
    (env : Env) (client : String) (s : Server) → IsValid s → Sound s (finish env client s)
unfolding finish
finish-Sound env client s h =
    let now = env.clock s.calls in
    record {
      valid = record {
        agree = disconnect-Agree client now s.sessions s.subscriptions h.agree;
        gauge = refl;
        keyed = h.keyed;
      };
      stays = λ c old. ground (arith, disconnect-get client c now s.sessions, eq_iff c client, old);
    }

established-Sound :
    (env : Env) (conn : ConnId) (client : String) (claims : Claims) (s : Server)
    → IsValid s
    → Sound s (established env conn client claims s).1
unfolding established
established-Sound env conn client claims s h =
    let next : Session = record {
      client_id = client;
      device_id = claims.device_id;
      role = claims.role;
      claims = claims;
      conn = some conn;
      online = false;
      subscriptions = [];
      connected_at = env.clock s.calls;
      last_seen_at = env.clock (s.calls + 1);
    } in
    let now = env.clock (s.calls + 2) in
    let seen = env.clock (s.calls + 3) in
    record {
      valid = record {
        agree = connect-Agree next now seen s.sessions s.subscriptions refl refl h.agree;
        gauge = refl;
        keyed = h.keyed;
      };
      stays = λ c old.
          ground
            (arith, upsert_connected-get next now seen s.sessions c refl, eq_iff c client, old);
    }

accepted-server :
    (client : String) (claims : Claims) (subs : List Subscription) (s : Server)
    (r : Option Error × Server)
    → Quiet s r.1
    → Quiet s (accepted client claims subs r).1
unfolding accepted
accepted-server client claims subs s (none, s') q =
    Quiet-trans q (count-Quiet (λ m. record m { packets_out = m.packets_out + 1 }) s' refl)
accepted-server client claims subs s (some e, s') q = q

pub welcome-Quiet :
    (env : Env) (conn : ConnId) (client : String) (claims : Claims) (s : Server)
    → Quiet (established env conn client claims s).1 (welcome env conn client claims s).1
unfolding welcome
welcome-Quiet env conn client claims s =
    let (r, s') = established env conn client claims s in
    accepted-server client claims r.1 s'
      (send_built env conn (λ now. conn_ack now "accepted" r.0) s')
      (send_built-Quiet env conn (λ now. conn_ack now "accepted" r.0) s')

authenticate-Sound :
    (env : Env) (conn : ConnId) (received : Result Packet) (s : Server)
    → IsValid s
    → Sound s (authenticate env conn received s).1
unfolding authenticate
authenticate-Sound env conn received s h =
    let asked : Quiet s (called s) = record {
      sessions = refl;
      subscriptions = refl;
      active = refl;
      keyed = λ u. u;
    } in
    elim (Result-cases (checked env received s)) [
      | inl (e, denied) ↦ rw (authenticate, denied) (Quiet-Sound asked h)
      | inr ((client, claims), known) ↦
          rw (authenticate, known)
            (Quiet-then asked (
              Sound-Quiet
                (established-Sound env conn client claims (called s) (Quiet-IsValid asked h))
                (welcome-Quiet env conn client claims (called s))))
    ]

opened-Sound :
    (env : Env) (conn : ConnId) (s : Server)
    (r : Result (String × Claims × List Subscription) × Server)
    → Sound s r.1
    → Sound s (opened env conn r).1
unfolding opened
opened-Sound env conn s (err e, s') h =
    let s'' = count (λ m. record m { auth_failures = m.auth_failures + 1 }) s' in
    Sound-Quiet h (
      Quiet-trans (count-Quiet (λ m. record m { auth_failures = m.auth_failures + 1 }) s' refl)
        (send_error-Quiet env conn "AUTH_FAILED" (error_text e) s''))
opened-Sound env conn s (ok (client, claims, subs), s') h =
    Sound-Quiet h (deliver_offline-Quiet env client conn s')

pub start-Sound :
    (env : Env) (conn : ConnId) (received : Result Packet) (s : Server)
    → IsValid s
    → Sound s (start env conn received s).1
unfolding start
start-Sound env conn received s h =
    opened-Sound env conn s (authenticate env conn received s)
      (authenticate-Sound env conn received s h)

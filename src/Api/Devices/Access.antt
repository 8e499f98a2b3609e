-- ===== src/Api/Devices/Access.antt =====
-- A device that the API gave a token is let in by the broker.
use carbmq_core.Base.{
  ℕ, ◌<◌, ℤ, pos, leb_ℤ, String, List, Option, none, if◌then◌else◌, ◌≡◌, ◌≢◌, ◌⊎◌, inl, inr, refl,
  arith, ap, ◌∙◌, eq_iff,
}
use carbmq_core.Base.Text.{◌<>◌}
use carbmq_core.Errors.{Error, Result-cases, ok}
use carbmq_core.Qtt.Packet.{Packet, Time, Subscription, packet_connect}
use carbmq_core.Auth.Claims.{Claims}
use carbmq_core.Auth.Acl.{can_subscribe}
use carbmq_core.Auth.Jwt.{JwtLib, parse, issue_device_token, add_duration}
use carbmq_core.Auth.Jwt.RoundTrip.{SignsAndParses, parse-issue_device_token}
use carbmq_core.Broker.Session.{ConnId}
use carbmq_core.Broker.State.{Env, Server, called}
use carbmq_core.Broker.Server.{identify, checked, established, authenticate}
use carbmq_core.Broker.Server.Connection.Accept.{authenticate-eq-welcome, welcome_accepts}
use carbmq_core.Db.Tables.{Tables}
use carbmq_core.Db.Devices.{get_device}
use carbmq_core.Api.Devices.{DeviceService, issue_token}

-- how long a token lasts
abbrev lasting : DeviceService → ℤ
lasting api = if leb_ℤ api.token_ttl (pos 0) then api.auth.device_ttl else api.token_ttl

issue_token-ok :
    (lib : JwtLib) (api : DeviceService) (fault : Option Error) (now : Time) (id token : String)
    (t : Tables)
    → issue_token lib api fault now id t ≡ ok token
    → issue_device_token lib api.auth now id api.token_ttl ≡ ok token
unfolding issue_token
issue_token-ok lib api fault now id token t h = elim (Result-cases (get_device fault id t)) [
  | inl (e, missing) ↦ ground (arith, missing, h)
  | inr (d, found) ↦ ground (arith, found, h)
]

identify_own :
    (p : Packet) (c : Claims) (id : String)
    → c.client_id ≡ id
    → c.device_id ≡ id
    → id ≢ ""
    → (p.client_id ≡ "") ⊎ (p.client_id ≡ id)
    → identify p c ≡ ok id
unfolding identify
identify_own p c id a b given own = ground (
  arith,
  eq_iff p.client_id "",
  eq_iff c.device_id id,
  eq_iff c.device_id p.client_id,
  eq_iff c.device_id c.client_id,
  eq_iff p.client_id id,
  eq_iff c.client_id "",
)

checked_own :
    (env : Env) (p : Packet) (s : Server) (c : Claims) (id : String)
    → p.type ≡ packet_connect
    → parse env.jwt s.auth (env.clock s.calls) p.token ≡ ok c
    → identify p c ≡ ok id
    → checked env (ok p) s ≡ ok (id, c)
unfolding checked
checked_own env p s c id connects parsed known =
    ground (arith, eq_iff p.type packet_connect, connects, parsed, known)

device_may_subscribe :
    (c : Claims) (id : String)
    → c.role ≡ "device"
    → c.device_id ≡ id
    → can_subscribe c ("device/" <> id <> "/command") ≡ none
unfolding can_subscribe
device_may_subscribe c id role own =
    let topic : ("device/" <> c.device_id <> "/command") ≡ ("device/" <> id <> "/command") =
      ap (λ d. "device/" <> d <> "/command") own in
    ground (
      arith,
      eq_iff c.role "admin",
      eq_iff c.role "device",
      eq_iff ("device/" <> id <> "/command") ("device/" <> c.device_id <> "/command"),
      topic,
    )

-- A device that the API issued a token for is let in by a broker with the same settings, until the
-- token expires, if sends work: with a CONNECT packet that carries the token, and names the device or
-- no client, `authenticate` answers the device's id and claims that admit its command topic.
pub authenticate-issue_token :
    (env : Env) (laws : SignsAndParses env.jwt) (api : DeviceService) (fault : Option Error)
    (now : Time) (id token : String) (t : Tables) (conn : ConnId) (p : Packet) (s : Server)
    → s.auth ≡ api.auth
    → issue_token env.jwt api fault now id t ≡ ok token
    → env.clock s.calls < env.jwt.new_numeric_date (add_duration now (lasting api))
    → p.type ≡ packet_connect
    → p.token ≡ token
    → (p.client_id ≡ "") ⊎ (p.client_id ≡ id)
    → id ≢ ""
    → ((n : ℕ) → env.send_fault n ≡ none)
    → (claims : Claims) × ((subs : List Subscription) × ((authenticate env conn (ok p) s).0
          ≡ ok (id, claims, subs)))
      × (can_subscribe claims ("device/" <> id <> "/command") ≡ none)
authenticate-issue_token env laws api fault now id token t conn p s same issued fresh connects its
      own given works =
    let (c, parsed, client, device, role) =
      parse-issue_device_token env.jwt api.auth laws now (env.clock s.calls) id token api.token_ttl
        (lasting api) refl (issue_token-ok env.jwt api fault now id token t issued) fresh in
    let accepted : parse env.jwt s.auth (env.clock s.calls) p.token ≡ ok c =
      rw (same, its) parsed in
    let known =
      checked_own env p s c id connects accepted (identify_own p c id client device given own) in
    let enters = authenticate-eq-welcome env conn (ok p) s id c known in
    (
      c,
      (
        (established env conn id c (called s)).0.1,
        ap (λ r. r.0) enters ∙ welcome_accepts env conn id c (called s) works,
      ),
      device_may_subscribe c id role device,
    )

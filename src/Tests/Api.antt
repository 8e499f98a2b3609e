-- ===== src/Tests/Api.antt =====
-- From the management API to the broker, at concrete inputs.
use carbmq_core.Base.{
  ◌≤◌, true, length, pos_part, All, pos, String, List, [], ◌∷◌, none, some, ◌≡◌, ◌≢◌, inl, refl,
  arith, eq_iff,
}
use carbmq_core.Base.Text.{◌<>◌}
use carbmq_core.Errors.{ok}
use carbmq_core.Qtt.Packet.{Subscription}
use carbmq_core.Auth.Claims.{Claims}
use carbmq_core.Auth.Acl.{can_subscribe}
use carbmq_core.Auth.Jwt
use carbmq_core.Broker.Server.{authenticate}
use carbmq_core.Db.Tables.{Json, Device, Message, Tables}
use carbmq_core.Db.Like.{like, items, like_items, some_suffix}
use carbmq_core.Db.Messages.{telemetry_pattern}
use carbmq_core.Db.Devices.{find_device, get_device}
use carbmq_core.Api.Numbers.{digits, magnitude, negated, atoi, parse_limit}
use carbmq_core.Api.Handlers.{contains, cors, messages, device_telemetry}
use carbmq_core.Api.Devices.{DeviceService, issue_token}
use carbmq_core.Api.Devices.Access.{authenticate-issue_token}
use carbmq_core.Api.Handlers.Telemetry.{telemetry_prefix, device_telemetry_own}
use carbmq_core.Db.Like.Plain.{IsPlain-of_test}
use carbmq_core.Tests.Data.{service, env, toy_lib, toy_signs, idle, connect, no_rows, hello}

abbrev api : DeviceService
api = record { auth = service; token_ttl = pos 0 }

abbrev known_device : Device
known_device = record { id = "d1"; name = "pump"; metadata = Json.null; created_at = 5 }

abbrev registered : Tables
registered = record no_rows { devices = known_device ∷ [] }

is_issued : issue_token toy_lib api none 10 "d1" registered ≡ ok "token"
unfolding issue_token get_device find_device Jwt.issue_device_token Jwt.issue_token
    Jwt.issued_claims
is_issued = refl

d1_named : ◌≢◌ {A = String} "d1" ""
d1_named = ground (arith, eq_iff "d1" "")

authenticate-issue_token_example :
    (claims : Claims) × ((subs : List Subscription) × ((authenticate env 7 (ok connect) idle).0
        ≡ ok ("d1", claims, subs)))
    × (can_subscribe claims ("device/" <> "d1" <> "/command") ≡ none)
authenticate-issue_token_example =
    authenticate-issue_token env toy_signs api none 10 "d1" "token" registered 7 connect idle refl
      is_issued (omega arith) refl refl (inl refl) d1_named (λ n. refl)

limit12 : parse_limit "12" (pos 50) ≡ pos 12
unfolding parse_limit atoi magnitude digits
limit12 = refl

limit_minus : parse_limit "-3" (pos 50) ≡ pos 50
unfolding parse_limit atoi magnitude digits negated
limit_minus = refl

abbrev origin : String
origin = "http://b"

abbrev origins : List String
origins = "http://a" ∷ origin ∷ []

is_allowed : (cors origins origin "GET").allow_origin ≡ some origin
unfolding cors contains
is_allowed = refl

abbrev reported : Tables
reported = record no_rows { messages = hello ∷ [] }

device_telemetry_own_example :
    (rows : List Message) × (device_telemetry none "d1" "2" reported
      ≡ record { status = 200; body = messages rows })
    × (length rows ≤ pos_part (parse_limit "2" (pos 50)))
    × All (λ m. (rest : String) × (m.topic ≡ telemetry_prefix "d1" <> rest)) rows
device_telemetry_own_example = device_telemetry_own "d1" "2" reported (IsPlain-of_test "d1" refl)

-- a device id that is a pattern
reads_others : like (telemetry_pattern "%") "device/d2/telemetry" ≡ true
unfolding like items like_items some_suffix telemetry_pattern
reads_others = refl

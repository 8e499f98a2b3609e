-- ===== src/Api/Handlers.antt =====
-- api/handlers/http.go: the answers of the management API. A handler is given what was decoded from
-- the request; the body of an answer is the value that is encoded.
pub mod Answers
pub mod Commands
pub mod Arrives
pub mod Telemetry
use carbmq_core.Base.{
  ℕ, ℤ, pos, String, Bool, true, false, ◌&&◌, ◌||◌, not, List, [], ◌∷◌, Option, none, some,
  if◌then◌else◌, ◌==◌,
}
use carbmq_core.Errors.{Error, Result, ok, err, error_text}
use carbmq_core.Qtt.Packet.{Packet, Time, RawMessage}
use carbmq_core.Qtt.Client.{Outside}
use carbmq_core.Config.{Config}
use carbmq_core.Wire.Value.{TextLayer}
use carbmq_core.Api.Bridge.{Bridge, publish_command}
use carbmq_core.Api.Bytes.{is_blank}
use carbmq_core.Auth.Jwt.{JwtLib}
use carbmq_core.Db.Tables.{Json, Device, Message, Tables}
use carbmq_core.Db.Summary.{MetricsSummary, get_metrics_summary}
use carbmq_core.Api.Devices
use carbmq_core.Api.Devices.{DeviceService}
use carbmq_core.Api.Numbers.{parse_limit}

-- `token` carries the time that the answer names beside the token.
pub data Body : Type 0 where
  failure : String → Body
  device : Device → Body
  token : String → ℤ → Body
  devices : List Device → Body
  messages : List Message → Body
  summary : MetricsSummary → Body
  published : Packet → Body
  text : List ℕ → Body
  healthy : Body

pub record Response : Type 0 where
  pub status : ℕ
  pub body : Body

-- `writeError`
unfoldable pub write_error : ℕ → Error → Response
write_error status e = record { status = status; body = failure (error_text e) }

-- an answer by `writeJSON`, or by `writeError` where there is an error
unfoldable pub answer : {A : Type 0} → (bad good : ℕ) → (A → Body) → Result A → Response
unfolding write_error
answer bad good body (err e) = write_error bad e
answer bad good body (ok a) = record { status = good; body = body a }

-- the fields of the request of `registerDevice`
pub record Registration : Type 0 where
  pub id : String
  pub name : String
  pub metadata : Json

-- `registerDevice`, on what the body was decoded to
unfoldable pub register_device :
    Option Error → Time → Result Registration → Tables → Response × Tables
unfolding write_error
register_device fault now (err e) t = (write_error 400 e, t)
register_device fault now (ok request) t =
    let (r, t') = Devices.register fault now request.id request.name request.metadata t in
    (answer 400 201 device r, t')

-- `issueToken`; `shown` is the configured time, which is named in the answer
unfoldable pub issue_token :
    JwtLib → DeviceService → (shown : ℤ) → Option Error → Time → String → Tables → Response
issue_token lib s shown fault now id t =
    answer 400 200 (λ text. token text shown) (Devices.issue_token lib s fault now id t)

-- `listDevices`
unfoldable pub list_devices : Option Error → Tables → Response
list_devices fault t = answer 500 200 devices (Devices.list fault t)

-- `deviceTelemetry`, with the text of the query's `limit`
unfoldable pub device_telemetry : Option Error → (id limit : String) → Tables → Response
device_telemetry fault id limit t =
    answer 500 200 messages (Devices.telemetry fault id (parse_limit limit (pos 50)) t)

-- `listMessages`
unfoldable pub list_messages : Option Error → (limit : String) → Tables → Response
list_messages fault limit t =
    answer 500 200 messages (Devices.messages fault (parse_limit limit (pos 100)) t)

-- `metricsSummary`
unfoldable metrics_summary : (f₁ f₂ f₃ f₄ : Option Error) → Time → Tables → Response
metrics_summary f₁ f₂ f₃ f₄ now t = answer 500 200 summary (get_metrics_summary f₁ f₂ f₃ f₄ now t)

-- `healthz`
unfoldable pub healthz : Response
healthz = record { status = 200; body = healthy }

-- `sendCommand`, on what the body was read to; `b'{'` and `b'}'` are the bytes of `{}`.
unfoldable pub send_command :
    TextLayer → Config → Outside → (id : String) → Result RawMessage → Bridge → Response × Bridge
unfolding write_error
send_command lib cfg o id (err e) b = (write_error 400 e, b)
send_command lib cfg o id (ok payload) b =
    let (r, b') =
      publish_command lib cfg o id (if is_blank payload then b'{' ∷ b'}' ∷ [] else payload) b in
    (answer 503 202 published r, b')

-- `metricsRaw`, on what `NewRequestWithContext`, `Do` and `ReadAll` answer
unfoldable metrics_raw : (asked answered : Option Error) → (body : Result RawMessage) → Response
unfolding write_error
metrics_raw (some e) answered body = write_error 500 e
metrics_raw none (some e) body = write_error 503 e
metrics_raw none none body = answer 502 200 text body

-- `slices.Contains`
unfoldable pub contains : List String → String → Bool
contains [] s = false
contains (x ∷ xs) s = x == s || contains xs s

-- What `cors` does: the origin that it allows, if it does, and whether it answers by itself, with
-- status 204.
pub record Cors : Type 0 where
  pub allow_origin : Option String
  pub answers : Bool

unfoldable pub cors : (allowed : List String) → (origin method : String) → Cors
unfolding contains
cors allowed origin method = record {
  allow_origin =
      if not (origin == "") && (contains allowed origin || contains allowed "*")
      then some origin
      else none;
  answers = method == "OPTIONS";
}

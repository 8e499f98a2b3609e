-- ===== src/Tests/Clients.antt =====
-- The clients of the broker at concrete inputs.
use carbmq_core.Base.{
  ℕ, ◌+◌, pos, Bool, true, false, List, [], ◌∷◌, ◌++◌, none, some, map, ◌≡◌, refl,
}
use carbmq_core.Errors.{Error, external, Result, ok, err, read_packet as read_failed}
use carbmq_core.Config.{Config as Settings, load}
use carbmq_core.Qtt.Packet.{Packet, Time, zero_packet, packet_conn_ack, packet_error}
use carbmq_core.Qtt.Builders.{conn_ack}
use carbmq_core.Qtt.Client.{Config, Outside, Link}
use carbmq_core.Qtt.Client.Calls.{hello}
use carbmq_core.Qtt.Client.Acks.{Acknowledged}
use carbmq_core.Base.Assoc.{lookup, insert}
use carbmq_core.Auth.Jwt.{parse, key_func}
use carbmq_core.Broker.Session.{upsert_connected, get}
use carbmq_core.Broker.State.{Server, Works, send_built, send}
use carbmq_core.Broker.Server.{
  handle_publish, checked, identify, authenticate, deliver_offline, send_all,
}
use carbmq_core.Broker.Server.Connection.{start}
use carbmq_core.Broker.Server.Connection.Delivered.{on, start_delivers}
use carbmq_core.Db.Tables.{OfflineMessage, order_by, where_rows}
use carbmq_core.Db.Offline.{get_offline_messages, scanned}
use carbmq_core.Queue.Persistent.{pending, to_packet}
use carbmq_core.Api.Hub.{new_hub}
use carbmq_core.Api.Bridge.{Bridge, Round, handshake, not_sub_ack, event_of, consume}
use carbmq_core.Api.Bridge
use carbmq_core.Api.Bridge.Stuck.{bridge_stuck}
use carbmq_core.Api.Bridge.Rounds.{return_of, start_returns}
use carbmq_core.Api.Bridge.Consumes.{consume_pushes, published, broadcast_each}
use carbmq_core.Api.Handlers.{send_command, Body}
use carbmq_core.Api.Bytes.{is_blank}
use carbmq_core.Wire.Value.{◌>>=◌}
use carbmq_core.Wire.Encode.{encode}
use carbmq_core.Wire.Decode.{decode}
use carbmq_core.Tests.Wire.{toy_text, compacts_once}
use carbmq_core.Api.Handlers.Arrives.{command_arrives}
use carbmq_core.Auth.Claims.{Claims}
use carbmq_core.Broker.Subscription.{list}
use carbmq_core.Broker.Subscription
use carbmq_core.Broker.Router.Outcomes.{target_conn}
use mathlib.Core.List.{Memᴰ}
use carbmq_core.Tests.Data.{
  busy, commands, env, idle, no_rows, device_claims, toy_lib, service, telemetry,
}

abbrev pub outside : Outside
outside = record { clock = λ n. 20 + n; new_packet_id = λ n. "fresh"; send_fault = λ n. none }

pub works : (n : ℕ) → outside.send_fault n ≡ none
works n = refl

abbrev pub cfg : Config
cfg = record {
  addr = "127.0.0.1:1884";
  client_id = "d1";
  token = "token";
  protocol_name = "crabmq-qtt";
  write_timeout = pos 5;
  read_timeout = pos 45;
}

abbrev pub accepted : Packet
accepted = record zero_packet { type = packet_conn_ack }

abbrev pub refusal : Packet
refusal = record zero_packet { type = packet_error; code = "PUBLISH_FAILED" }

abbrev pub gone : Error
gone = external "closed"

abbrev pub link : List (Result Packet) → Link
link incoming = record { incoming = incoming; outgoing = []; calls = 0; closed = false }

-- a row of the offline queue for the client
abbrev row : OfflineMessage
row = record {
  packet_id = "p2";
  client_id = "d1";
  topic = "device/d2/telemetry";
  qos = pos 1;
  payload = [];
  enqueued_at = 9;
  available_at = 9;
}

abbrev holds : Server
holds = record idle { tables = record no_rows { offline_messages = row ∷ [] } }

env_Works : Works env
env_Works = record { sends = λ n. refl; stores = λ n. refl }

abbrev told : List Packet
told = conn_ack 16 "accepted" false ∷ to_packet row ∷ []

abbrev bridge_link : Link
bridge_link = link (map ok told)

abbrev greeting : Result Packet
greeting = ok (hello outside cfg (("role", "bridge") ∷ []) bridge_link)

greeting-checked : checked env greeting holds ≡ ok ("d1", device_claims)
unfolding checked parse key_func identify
greeting-checked = refl

row-pending : pending env.jsonb none "d1" holds.tables ≡ ok (to_packet row ∷ [])
unfolding pending get_offline_messages order_by where_rows scanned
row-pending = refl

told_sent : (start env 7 greeting holds).1.sent ≡ holds.sent ++ on 7 told
unfolding start authenticate checked parse key_func identify send_built send deliver_offline pending
    get_offline_messages send_all order_by where_rows upsert_connected lookup conn_ack insert
    to_packet scanned
told_sent = refl

bridge_stuck_example :
    ((handshake outside cfg bridge_link).0 ≡ err not_sub_ack)
    × (pending env.jsonb none "d1" (start env 7 greeting holds).1.tables ≡ ok (to_packet row ∷ []))
bridge_stuck_example =
    bridge_stuck env env_Works outside works cfg bridge_link 7 holds device_claims (to_packet row)
      [] told [] greeting-checked row-pending told_sent refl

abbrev settings : Settings
settings = load (λ s. none) (λ key. "")

abbrev bridge : Bridge
bridge = record { hub = new_hub; client = none; link = link [] }

abbrev round : Bool → Round
round slept = record {
  done = false;
  now = 10;
  dialled = none;
  opened = none;
  client = 3;
  link = link (ok accepted ∷ []);
  fault = λ s. none;
  slept = slept;
}

start_returns_example :
    (Bridge.start toy_lib service settings outside (round true ∷ round false ∷ []) bridge).0
    ≡ return_of toy_lib service settings (round true ∷ round false ∷ [])
start_returns_example =
    start_returns toy_lib service settings outside (round true ∷ round false ∷ []) bridge

start_delivers_example :
    let (who, s') = start env 7 greeting holds in
    (who ≡ some ("d1", device_claims))
    × ((now : Time) × (present : Bool) × (s'.sent
          ≡ holds.sent ++ (7, conn_ack now "accepted" present) ∷ on 7 (to_packet row ∷ [])))
    × (s'.tables ≡ holds.tables)
start_delivers_example =
    start_delivers env env_Works 7 greeting holds "d1" device_claims (to_packet row ∷ [])
      greeting-checked row-pending

consume_pushes_example :
    let (r, l', h') =
      consume outside cfg
        (λ s. none)
        (ok telemetry ∷ ok refusal ∷ err gone ∷ [])
        (link [])
        new_hub in
    (r ≡ read_failed gone)
    × (h'
        ≡ broadcast_each (λ s. none) (map event_of (published (telemetry ∷ refusal ∷ []))) new_hub)
    × Acknowledged (link []) l' (telemetry ∷ refusal ∷ [])
consume_pushes_example =
    consume_pushes outside works cfg (λ s. none) (telemetry ∷ refusal ∷ []) gone [] (link [])
      new_hub

abbrev api_claims : Claims
api_claims = record device_claims { role = "admin"; client_id = "api-bridge" }

is_listed : Memᴰ commands (list "d1" busy.subscriptions)
unfolding list Subscription.by_client lookup
is_listed = Memᴰ.head refl

is_online : target_conn (get "d1" busy.sessions) ≡ some 7
unfolding get lookup
is_online = refl

-- the clock of the bridge stands still at a time that the texts know
abbrev timely : Outside
timely = record outside { clock = λ n. 5 }

abbrev spaced_command : List ℕ
spaced_command = b' ' ∷ b'7' ∷ []

command_arrives_example :
    let b = record bridge { client = some 3 } in
    let (r, b') = send_command toy_text settings timely "d1" (ok spaced_command) b in
    (p received : Packet) × (r ≡ record { status = 202; body = Body.published p })
    × (b'.link.outgoing ≡ b.link.outgoing ++ p ∷ [])
    × ((encode toy_text p >>= decode toy_text) ≡ some received)
    × (let (e, s') = handle_publish env 9 settings.api.bridge_client_id api_claims received busy in
        (e ≡ none)
        × ((q : Packet) × (q.topic ≡ "device/d1/command")
            × (q.payload ≡ b'7' ∷ [])
            × Memᴰ (7, q) s'.sent))
unfolding load is_blank carbmq_core.Config.env_int
command_arrives_example =
    command_arrives toy_text compacts_once settings timely works
      (λ n. ("0001-01-01T00:00:00.000000005Z", refl, refl)) "d1" spaced_command (b'7' ∷ []) 3
      (record bridge { client = some 3 }) env env_Works 9 api_claims busy "d1" commands 7 refl refl
      refl (λ n k ks m. m) refl is_listed refl is_online

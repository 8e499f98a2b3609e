-- ===== src/Api/Bridge.antt =====
-- api/services/bridge.go: the API's own client of the broker, which connects again and again, hands
-- telemetry to the hub and sends commands.
pub mod Rounds
pub mod Consumes
pub mod Stuck
use carbmq_core.Base.{
  ℕ, ◌+◌, ℤ, pos, ltb_ℤ, String, Bool, true, false, List, [], ◌∷◌, ◌++◌, Option, none, some,
  if◌then◌else◌, ◌==◌, nat_eq, not,
}
use carbmq_core.Base.Text.{◌<>◌}
use carbmq_core.Errors.{
  Error, Result, ok, err, external, read_packet as read_failed, bridge_not_connected,
}
use carbmq_core.Qtt.Packet.{
  Packet, Time, RawMessage, Subscription, zero_packet, packet_publish, packet_sub_ack, packet_error,
}
use carbmq_core.Qtt.Topic.{topic_owner}
use carbmq_core.Qtt.Client.{
  Config, Outside, Link, Exec, ◌>>=◌, ◌>>◌, pure, raise, continue, timestamp_now, fresh_id, connect,
  subscribe, read_packet, send, send_pub_ack, close, dial, end_of_stream,
}
use carbmq_core.Auth.Jwt.{JwtLib, Service, issue_admin_token}
use carbmq_core.Config.{Config as Settings}
use carbmq_core.Wire.Value.{TextLayer}
use carbmq_core.Wire.Encode.{encode}
use carbmq_core.Api.Hub.{TelemetryEvent, Socket, Hub, broadcast}

-- A `*qttclient.Client`, by identity.
abbrev pub ClientId : Type 0
ClientId = ℕ

-- `Bridge`: the hub, the client under the mutex, and the stream of the client that was dialled last.
pub record Bridge : Type 0 where
  pub hub : Hub
  pub client : Option ClientId
  pub link : Link

abbrev pub telemetry_filter : Subscription
telemetry_filter = record { topic = "device/+/telemetry"; qos = pos 1 }

-- `Start` only logs that the answer is no SUBACK.
abbrev pub not_sub_ack : Error
not_sub_ack = external "api bridge expected SUBACK"

-- From `Connect` to the check of the SUBACK.
unfoldable pub handshake : Outside → Config → Exec (Unit {0})
handshake o cfg = do
  connect o cfg (("role", "bridge") ∷ [])
  subscribe o cfg (telemetry_filter ∷ [])
  packet ← read_packet
  if packet.type == packet_sub_ack then pure tt else raise not_sub_ack

-- the event that `consume` makes of a packet
unfoldable pub event_of : Packet → TelemetryEvent
event_of packet = record {
  packet_id = packet.packet_id;
  device_id = topic_owner packet.topic;
  topic = packet.topic;
  qos = packet.qos;
  timestamp = packet.timestamp;
  payload = packet.payload;
}

-- The round of `consume` for a PUBLISH: `some e` ends the loop.
take_publish :
    Outside → Config → (Socket → Option Error) → Packet → Link → Hub → Option Error × Link × Hub
take_publish o cfg fault packet l h =
    let h' = broadcast fault (event_of packet) h in
    if ltb_ℤ (pos 0) packet.qos
    then (let (r, l') = send_pub_ack o cfg packet.packet_id l in
        elim r [ ok _ ↦ (none, l', h') | err e ↦ (some e, l', h') ])
    else (none, l, h')

-- the round of `consume` for a packet
unfoldable pub handled :
    Outside → Config → (Socket → Option Error) → Packet → Link → Hub → Option Error × Link × Hub
unfolding take_publish
handled o cfg fault packet l h =
    if packet.type == packet_publish then take_publish o cfg fault packet l h else (none, l, h)

-- `consume`, over what its reads give; it ends with an error.
unfoldable pub consume :
    Outside
    → Config
    → (Socket → Option Error)
    → List (Result Packet)
    → Link
    → Hub
    → Error × Link × Hub
consume o cfg fault [] l h = (read_failed end_of_stream, l, h)
consume o cfg fault (err e ∷ rest) l h = (read_failed e, record l { incoming = rest }, h)
consume o cfg fault (ok packet ∷ rest) l h =
    let (done, l', h') = handled o cfg fault packet (record l { incoming = rest }) h in
    elim done [ some e ↦ (e, l', h') | none ↦ consume o cfg fault rest l' h' ]

-- `setClient`, `clearClient` and `currentClient`
abbrev set_client : ClientId → Bridge → Bridge
set_client c b = record b { client = some c }

abbrev same_client : Option ClientId → ClientId → Bool
same_client none c = false
same_client (some d) c = nat_eq d c

unfoldable pub clear_client : ClientId → Bridge → Bridge
clear_client c b = if same_client b.client c then record b { client = none } else b

-- What one round of `Start` is answered: whether the context is done, the clock, quic-go's answers,
-- the identity and the stream of the new client, the websockets' faults, and whether `sleepContext`,
-- which every round that is not the last calls once, was not cut short.
pub record Round : Type 0 where
  pub done : Bool
  pub now : Time
  pub dialled : Option Error
  pub opened : Option Error
  pub client : ClientId
  pub link : Link
  pub fault : Socket → Option Error
  pub slept : Bool

-- How a round ends: the loop goes on, or `Start` returns.
pub data Turn : Type 0 where
  continues : Turn
  returns : Option Error → Turn

-- `if !sleepContext(ctx, backoff) { return nil }; continue`
abbrev pub sleep_context : Round → Bridge → Turn × Bridge
sleep_context round b = (if round.slept then continues else returns none, b)

-- `_ = client.Close()`, on the stream that the calls have left
abbrev closed : Link → Bridge → Bridge
closed l b = record b { link = close l }

-- A round with a client that was dialled, call by call: each that fails closes the client and sleeps.
unfoldable pub served : Outside → Config → Round → Bridge → Turn × Bridge
served o cfg round b =
    let (connected, l₁) = connect o cfg (("role", "bridge") ∷ []) round.link in
    elim connected [
      | err _ ↦ sleep_context round (closed l₁ b)
      | ok _ ↦
          let (subscribed, l₂) = subscribe o cfg (telemetry_filter ∷ []) l₁ in
          elim subscribed [
            | err _ ↦ sleep_context round (closed l₂ b)
            | ok _ ↦
                let (answer, l₃) = read_packet l₂ in
                elim answer [
                  | err _ ↦ sleep_context round (closed l₃ b)
                  | ok packet ↦
                      if packet.type == packet_sub_ack
                      then (let b' = set_client round.client (record b { link = l₃ }) in
                          let (_, l', h) = consume o cfg round.fault l₃.incoming l₃ b'.hub in
                          sleep_context round
                            (closed l' (clear_client round.client (record b' { hub = h }))))
                      else sleep_context round (closed l₃ b)
                ]
          ]
    ]

-- What a round of `Start` does with a token.
unfoldable pub attempt : Settings → Outside → (token : String) → Round → Bridge → Turn × Bridge
attempt cfg o token round b =
    let asked : Config = record {
      addr = cfg.api.broker_addr;
      client_id = cfg.api.bridge_client_id;
      token = token;
      protocol_name = cfg.broker.protocol_name;
      write_timeout = pos 0;
      read_timeout = pos 0;
    } in
    elim (dial round.dialled round.opened asked) [
      | err _ ↦ sleep_context round b
      | ok kept ↦ served o kept round b
    ]

-- A round of `Start`.
unfoldable pub take_turn : JwtLib → Service → Settings → Outside → Round → Bridge → Turn × Bridge
take_turn lib auth cfg o round b =
    if round.done
    then (returns none, b)
    else elim (issue_admin_token lib auth round.now cfg.api.bridge_client_id
        cfg.auth.admin_token_ttl) [
          | err e ↦ (returns (some e), b)
          | ok token ↦ attempt cfg o token round b
        ]

-- `Start`, over the answers of its rounds: `some r` is a return with `r`; `none` means that it has
-- not returned within these rounds.
unfoldable pub start :
    JwtLib → Service → Settings → Outside → List Round → Bridge → Option (Option Error) × Bridge
start lib auth cfg o [] b = (none, b)
start lib auth cfg o (round ∷ rounds) b =
    let (turn, b') = take_turn lib auth cfg o round b in
    elim turn [ returns r ↦ (some r, b') | continues ↦ start lib auth cfg o rounds b' ]

-- `Encode` fails for a payload that is not JSON.
abbrev pub not_encoded : Error
not_encoded = external "json: error calling MarshalJSON for type json.RawMessage"

-- `PublishCommand`. The client's `Send` encodes the packet; `lib` is the text layer of the encoder.
unfoldable pub publish_command :
    TextLayer
    → Settings
    → Outside
    → (device_id : String) → RawMessage
    → Bridge
    → Result Packet × Bridge
publish_command lib cfg o device_id payload b = elim b.client [
  | none ↦ (err bridge_not_connected, b)
  | some _ ↦
      let packet : Packet = record zero_packet {
        type = packet_publish;
        packet_id = o.new_packet_id b.link.calls;
        client_id = cfg.api.bridge_client_id;
        topic = "device/" <> device_id <> "/command";
        qos = cfg.api.command_qos;
        payload = payload;
        timestamp = o.clock (b.link.calls + 1);
      } in
      let asked = record b.link { calls = b.link.calls + 2 } in
      elim (encode lib packet) [
        | none ↦ (err not_encoded, record b { link = asked })
        | some _ ↦
            let (r, l) = send o packet asked in
            elim r [
              | err e ↦ (err e, record b { link = l })
              | ok _ ↦ (ok packet, record b { link = l })
            ]
      ]
]

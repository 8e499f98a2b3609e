-- ===== src/Cmd/Simulator.antt =====
-- cmd/crabmq-sim/main.go: the simulated devices. What net/http answers is an argument of the model,
-- and so is the decoding of the answer that holds a token.
pub mod Loop
pub mod Rounds
pub mod Start
use carbmq_core.Base.{
  ℕ, ◌+◌, ℤ, pos, ltb_ℤ, leb, String, Bool, true, false, List, [], ◌∷◌, ◌++◌, Option, none, some,
  if◌then◌else◌, ◌==◌,
}
use carbmq_core.Base.Text.{◌<>◌}
use carbmq_core.Errors.{Error, Result, ok, err, read_packet as read_failed, http_status}
use carbmq_core.Qtt.Packet.{Packet, RawMessage, packet_publish}
use carbmq_core.Db.Tables.{Json, str, obj, field, end}
use carbmq_core.Qtt.Client.{
  Config, Outside, Link, Exec, ◌>>=◌, ◌>>◌, continue, connect, publish, subscribe, read_packet,
  send_pub_ack, close, dial,
}

-- What a request is answered: the error of `NewRequestWithContext`, that of `Do`, or a response.
pub record HttpAnswer : Type 0 where
  pub asked : Option Error
  pub done : Option Error
  pub status_code : ℕ
  pub status : String
  pub body : Result String

-- The request of `doJSON`, with the value whose JSON text is the payload.
pub record Request : Type 0 where
  pub method : String
  pub url : String
  pub payload : Option Json
  pub content_type : Option String

-- A payload comes with its `Content-Type`.
unfoldable pub new_request : (method url : String) → (payload : Option Json) → Request
new_request method url payload = record {
  method = method;
  url = url;
  payload = payload;
  content_type = elim payload [ none ↦ none | some _ ↦ some "application/json" ];
}

-- `doJSON` up to the decoding: the body of the answer
unfoldable pub do_json : Request → HttpAnswer → Result String
do_json request answer = elim answer.asked [
  | some e ↦ err e
  | none ↦ elim answer.done [
    | some e ↦ err e
    | none ↦ elim answer.body [
      | err e ↦ err e
      | ok body ↦
          if leb 300 answer.status_code
          then err (http_status request.url answer.status body)
          else ok body
    ]
  ]
]

-- what a device is registered with; encoding/json writes the keys of a map in their order
unfoldable pub registration : String → Json
registration device_id = obj (
    field "id" (str device_id) (
      field "metadata" (obj (field "source" (str "simulator") end))
        (field "name" (str device_id) end)))

unfoldable pub register_request : (api_base_url device_id : String) → Request
register_request api_base_url device_id =
    new_request "POST" (api_base_url <> "/devices/register") (some (registration device_id))

unfoldable pub token_request : (api_base_url device_id : String) → Request
token_request api_base_url device_id =
    new_request "POST" (api_base_url <> "/devices/" <> device_id <> "/token") none

-- `ensureToken`
unfoldable pub ensure_token :
    (decode : String → Result String)
    → (api_base_url device_id : String) → (registered issued : HttpAnswer) → Result String
ensure_token decode api_base_url device_id registered issued =
    elim (do_json (register_request api_base_url device_id) registered) [
      | err e ↦ err e
      | ok _ ↦ elim (do_json (token_request api_base_url device_id) issued) [
        | err e ↦ err e
        | ok body ↦ decode body
      ]
    ]

-- A device with a stream: the commands that it has logged, and the error that `readCommands` ended
-- with, if it has.
pub record Running : Type 0 where
  pub link : Link
  pub commands : List Packet
  pub failed : Option Error

-- What comes next to `runTelemetryLoop` or to the `readCommands` beside it: the context is done; the
-- error of `readCommands` is taken from its channel; the ticker fires, with the payload that is made
-- then; or a packet is read.
pub data Event : Type 0 where
  cancels : Error → Event
  takes_failure : Event
  ticks : RawMessage → Event
  reads : Result Packet → Event

acked : Result (Unit {0}) × Link → Running → Running
acked (ok _, l) r = record r { link = l }
acked (err e, l) r = record r { link = l; failed = some e }

-- a round of `readCommands`
unfoldable pub read_command : Outside → Config → Result Packet → Running → Running
unfolding acked
read_command o cfg (err e) r = record r { failed = some (read_failed e) }
read_command o cfg (ok packet) r =
    if packet.type == packet_publish
    then (let logged : Running = record r { commands = r.commands ++ packet ∷ [] } in
        if ltb_ℤ (pos 0) packet.qos
        then acked (send_pub_ack o cfg packet.packet_id r.link) logged
        else logged)
    else r

reader_turn : Outside → Config → Result Packet → Option Error → Running → Running
reader_turn o cfg read none r = read_command o cfg read r
reader_turn o cfg read (some e) r = r

published : Result (Unit {0}) × Link → Running → Option Error × Running
published (ok _, l) r = (none, record r { link = l })
published (err e, l) r = (some e, record r { link = l })

-- one event; `some e` is a return with `e`
unfoldable pub turn :
    Outside → Config → (device_id : String) → Event → Running → Option Error × Running
unfolding reader_turn published
turn o cfg device_id (cancels e) r = (some e, r)
turn o cfg device_id takes_failure r = (r.failed, r)
turn o cfg device_id (ticks payload) r =
    published (publish o cfg ("device/" <> device_id <> "/telemetry") (pos 1) payload r.link) r
turn o cfg device_id (reads read) r = (none, reader_turn o cfg read r.failed r)

-- `runTelemetryLoop`: `none` means that it has not returned within these events.
unfoldable pub run_telemetry_loop :
    Outside → Config → (device_id : String) → List Event → Running → Option Error × Running
run_telemetry_loop o cfg device_id [] r = (none, r)
run_telemetry_loop o cfg device_id (event ∷ events) r =
    let (ends, r') = turn o cfg device_id event r in
    elim ends [ some e ↦ (some e, r') | none ↦ run_telemetry_loop o cfg device_id events r' ]

-- from `Connect` to the packet that is taken for the SUBACK
unfoldable pub prepare : Outside → (device_id : String) → Config → Exec Packet
prepare o device_id cfg = do
  connect o cfg (("kind", "simulator") ∷ [])
  subscribe o cfg ((record { topic = "device/" <> device_id <> "/command"; qos = pos 1 }) ∷ [])
  read_packet

-- What one round of `runDevice` is answered.
pub record Round : Type 0 where
  pub done : Bool
  pub registered : HttpAnswer
  pub issued : HttpAnswer
  pub dialled : Option Error
  pub opened : Option Error
  pub link : Link
  pub events : List Event
  pub slept : Bool

-- How a round stands behind its events: no stream was opened, its stream was given up, or its
-- telemetry loop goes on.
pub data Stand : Type 0 where
  unopened : Stand
  given_up : Running → Stand
  still_running : Running → Stand

give_up : Running → Stand
give_up r = given_up (record r { link = close r.link })

stand_of : Option Error × Running → Stand
unfolding give_up
stand_of (some e, r) = give_up r
stand_of (none, r) = still_running r

connected : Outside → Config → (device_id : String) → List Event → Result Packet × Link → Stand
unfolding give_up stand_of
connected o cfg device_id events (err e, l) =
    give_up (record { link = l; commands = []; failed = none })
connected o cfg device_id events (ok _, l) =
    stand_of (
      run_telemetry_loop o cfg device_id events (record { link = l; commands = []; failed = none }))

-- a round of `runDevice` up to its sleep
unfoldable pub attempt :
    Outside
    → (decode : String → Result String) → (broker_addr api_base_url device_id : String) → Round
    → Stand
unfolding connected
attempt o decode broker_addr api_base_url device_id round =
    elim (ensure_token decode api_base_url device_id round.registered round.issued) [
      | err e ↦ unopened
      | ok token ↦
          let asked : Config = record {
            addr = broker_addr;
            client_id = device_id;
            token = token;
            protocol_name = "";
            write_timeout = pos 0;
            read_timeout = pos 0;
          } in
          elim (dial round.dialled round.opened asked) [
            | err e ↦ unopened
            | ok cfg ↦ connected o cfg device_id round.events (prepare o device_id cfg round.link)
          ]
    ]

-- a round that goes on has no round behind it
behind : Stand → List Stand × Bool → List Stand × Bool
behind unopened (stands, returned) = (unopened ∷ stands, returned)
behind (given_up r) (stands, returned) = (given_up r ∷ stands, returned)
behind (still_running r) later = (still_running r ∷ [], false)

-- `runDevice`, over the answers of its rounds: how each round stood that it came to, and whether it
-- has returned.
unfoldable pub run_device :
    Outside
    → (decode : String → Result String) → (broker_addr api_base_url device_id : String) → List Round
    → List Stand × Bool
unfolding behind
run_device o decode broker_addr api_base_url device_id [] = ([], false)
run_device o decode broker_addr api_base_url device_id (round ∷ rounds) =
    let later =
      if round.slept
      then run_device o decode broker_addr api_base_url device_id rounds
      else ([], true) in
    if round.done
    then ([], true)
    else behind (attempt o decode broker_addr api_base_url device_id round) later

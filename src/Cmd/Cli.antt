-- ===== src/Cmd/Cli.antt =====
-- cmd/crabmq-cli/main.go: the command line client. What `flags.Parse` gives is an argument of the
-- model, and so is `json.Valid`.
pub mod Runs
use carbmq_core.Base.{
  ℕ, ℤ, pos, ltb_ℤ, String, Bool, true, false, ◌&&◌, List, [], ◌∷◌, Option, none, some,
  if◌then◌else◌, ◌==◌,
}
use carbmq_core.Base.Text.{◌<>◌}
use carbmq_core.Errors.{Error, Result, ok, err, read_packet as read_failed, payload_not_json}
use carbmq_core.Config.{Environment, env_text}
use carbmq_core.Qtt.Packet.{Packet, RawMessage, packet_publish}
use carbmq_core.Qtt.Client.{
  Config, Outside, Link, Exec, ◌>>=◌, ◌>>◌, pure, raise, continue, connect, publish, subscribe,
  read_packet, send_pub_ack, close, dial, end_of_stream,
}

pub record PublishFlags : Type 0 where
  pub addr : String
  pub client_id : String
  pub token : String
  pub topic : String
  pub payload : RawMessage
  pub qos : ℤ

pub record SubscribeFlags : Type 0 where
  pub addr : String
  pub client_id : String
  pub token : String
  pub topic : String

-- the values of flags that are not given
unfoldable publish_defaults : Environment → PublishFlags
publish_defaults os = record {
  addr = env_text os "CRABMQ_BROKER_ADDR" "127.0.0.1:1884";
  client_id = env_text os "CRABMQ_CLIENT_ID" "cli-publisher";
  token = os "CRABMQ_TOKEN";
  topic = "";
  payload = b'{' ∷ b'}' ∷ [];
  qos = pos 1;
}

unfoldable subscribe_defaults : Environment → SubscribeFlags
subscribe_defaults os = record {
  addr = env_text os "CRABMQ_BROKER_ADDR" "127.0.0.1:1884";
  client_id = env_text os "CRABMQ_CLIENT_ID" "cli-subscriber";
  token = os "CRABMQ_TOKEN";
  topic = "";
}

-- the `qttclient.Config` of a command
abbrev pub asked : (addr client_id token : String) → Config
asked addr client_id token = record {
  addr = addr;
  client_id = client_id;
  token = token;
  protocol_name = "";
  write_timeout = pos 0;
  read_timeout = pos 0;
}

-- the line that is printed for the answer to a PUBLISH
abbrev pub report : Packet → String
report packet = "received " <> packet.type <> " for packet " <> packet.packet_id

confirmed : ℤ → Exec (Option String)
confirmed qos l =
    if ltb_ℤ (pos 0) qos
    then continue (λ packet. pure (some (report packet))) (read_packet l)
    else (ok none, l)

-- from `Connect` to the end of `runPublish`; the answer is what is printed
unfoldable pub publish_once :
    Outside → (valid : RawMessage → Bool) → PublishFlags → Config → Exec (Option String)
unfolding confirmed
publish_once o valid flags cfg = do
  connect o cfg (("source", "go-cli") ∷ [])
  if valid flags.payload then pure tt else raise {A = Unit {0}} payload_not_json
  publish o cfg flags.topic flags.qos flags.payload
  confirmed flags.qos

closing : {A : Type 0} → Result A × Link → Result A × Link
closing (r, l) = (r, close l)

-- `runPublish`, on what `flags.Parse` and quic-go answer
unfoldable pub run_publish :
    Outside
    → (valid : RawMessage → Bool) → (dialled opened : Option Error) → Result PublishFlags
    → Exec (Option String)
unfolding closing
run_publish o valid dialled opened (err e) l = (err e, l)
run_publish o valid dialled opened (ok flags) l =
    elim (dial dialled opened (asked flags.addr flags.client_id flags.token)) [
      | err e ↦ (err e, l)
      | ok cfg ↦ closing (publish_once o valid flags cfg l)
    ]

-- `_ = client.SendPubAck`, for a PUBLISH with a QoS above 0
unfoldable pub acknowledge : Outside → Config → Packet → Link → Link
acknowledge o cfg packet l =
    if packet.type == packet_publish && ltb_ℤ (pos 0) packet.qos
    then (send_pub_ack o cfg packet.packet_id l).1
    else l

-- the loop of `runSubscribe`, over what its reads give: the packets that are printed, and the error
-- at its end
unfoldable pub follow : Outside → Config → List (Result Packet) → Link → List Packet × Error × Link
follow o cfg [] l = ([], read_failed end_of_stream, l)
follow o cfg (err e ∷ rest) l = ([], read_failed e, record l { incoming = rest })
follow o cfg (ok packet ∷ rest) l =
    let (printed, e, l') =
      follow o cfg rest (acknowledge o cfg packet (record l { incoming = rest })) in
    (packet ∷ printed, e, l')

-- from `Connect` to the packet that is taken for the SUBACK
unfoldable pub follows : Outside → SubscribeFlags → Config → Exec Packet
follows o flags cfg = do
  connect o cfg (("source", "go-cli") ∷ [])
  subscribe o cfg ((record { topic = flags.topic; qos = pos 1 }) ∷ [])
  read_packet

-- `runSubscribe` behind `Dial`
unfoldable pub follow_topic : Outside → SubscribeFlags → Config → Link → List Packet × Error × Link
follow_topic o flags cfg l =
    let (answer, l') = follows o flags cfg l in
    elim answer [
      | err e ↦ ([], e, close l')
      | ok _ ↦ let (printed, e, l'') = follow o cfg l'.incoming l' in (printed, e, close l'')
    ]

-- `runSubscribe`, on what `flags.Parse` and quic-go answer
unfoldable pub run_subscribe :
    Outside
    → (dialled opened : Option Error) → Result SubscribeFlags
    → Link
    → List Packet × Error × Link
run_subscribe o dialled opened (err e) l = ([], e, l)
run_subscribe o dialled opened (ok flags) l =
    elim (dial dialled opened (asked flags.addr flags.client_id flags.token)) [
      | err e ↦ ([], e, l)
      | ok cfg ↦ follow_topic o flags cfg l
    ]

-- What `main` does, by its arguments behind the name of the program.
pub data Command : Type 0 where
  publishes subscribes : (flags : List String) → Command
  shows_usage : Command

-- `main` up to the call of a command
unfoldable pub command : List String → Command
command [] = shows_usage
command (name ∷ flags) =
    if name == "publish"
    then publishes flags
    else if name == "subscribe"
    then subscribes flags
    else shows_usage

-- the status that the process ends with
unfoldable exit_status : (usage : Bool) → Option Error → ℕ
exit_status true e = 2
exit_status false none = 0
exit_status false (some e) = 1

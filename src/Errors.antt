-- ===== src/Errors.antt =====
-- The errors that the program makes, one constructor for each `errors.New` and `fmt.Errorf`, with
-- the text that each prints. An error of a library or of a service is `external` with its text.
use Prim.Native.String.{String}
use carbmq_core.Base.{Option, none, some, ◌≡◌, refl, ◌⊎◌, inl, inr}
use carbmq_core.Base.Text.{◌<>◌}

pub data Error : Type 0 where
  external : String → Error
  missing_token invalid_token : Error
  unexpected_signing_method : String → Error
  parse_jwt sign_jwt : Error → Error
  unknown_role : Error
  cannot_publish : (device topic : String) → Error
  cannot_publish_command : (device : String) → Error
  cannot_subscribe : (device topic : String) → Error
  read_connect : Error → Error
  not_connect missing_client_id : Error
  client_mismatch : (device client : String) → Error
  send_connack : Error → Error
  missing_subscriptions missing_topic : Error
  device_id_required : Error
  device_not_found : String → Error
  save_message mark_acknowledged enqueue_offline get_offline delete_offline : Error → Error
  list_devices query_messages marshal_metadata unmarshal_metadata : Error → Error
  count_devices count_messages count_offline count_recent : Error → Error
  unsupported_packet : String → Error
  dial_quic open_stream read_packet : Error → Error
  expected_conn_ack : String → Error
  bridge_not_connected : Error
  listen_quic accept_connection load_key_pair : Error → Error
  generate_private_key create_certificate parse_key_pair : Error → Error
  open_postgres ping_postgres ensure_schema scan_message metrics_server : Error → Error
  payload_not_json : Error
  http_status : (url status body : String) → Error

-- `err.Error()`
unfoldable pub error_text : Error → String
error_text (external s) = s
error_text missing_token = "missing token"
error_text invalid_token = "invalid token"
error_text (unexpected_signing_method s) = "unexpected signing method " <> s
error_text (parse_jwt e) = "parse jwt: " <> error_text e
error_text (sign_jwt e) = "sign jwt: " <> error_text e
error_text unknown_role = "unknown client role"
error_text (cannot_publish d t) = "device " <> d <> " cannot publish to " <> t
error_text (cannot_publish_command d) = "device " <> d <> " cannot publish command topics"
error_text (cannot_subscribe d t) = "device " <> d <> " cannot subscribe to " <> t
error_text (read_connect e) = "read connect packet: " <> error_text e
error_text not_connect = "first packet must be CONNECT"
error_text missing_client_id = "missing client id"
error_text (client_mismatch d c) = "device token client mismatch: " <> d <> " != " <> c
error_text (send_connack e) = "send connack: " <> error_text e
error_text missing_subscriptions = "missing subscriptions"
error_text missing_topic = "missing topic"
error_text device_id_required = "device id is required"
error_text (device_not_found d) = "device " <> d <> " not found"
error_text (save_message e) = "save message: " <> error_text e
error_text (mark_acknowledged e) = "mark acknowledged: " <> error_text e
error_text (enqueue_offline e) = "enqueue offline message: " <> error_text e
error_text (get_offline e) = "get offline messages: " <> error_text e
error_text (delete_offline e) = "delete offline message: " <> error_text e
error_text (list_devices e) = "list devices: " <> error_text e
error_text (query_messages e) = "query messages: " <> error_text e
error_text (marshal_metadata e) = "marshal device metadata: " <> error_text e
error_text (unmarshal_metadata e) = "unmarshal device metadata: " <> error_text e
error_text (count_devices e) = "count devices: " <> error_text e
error_text (count_messages e) = "count messages: " <> error_text e
error_text (count_offline e) = "count offline messages: " <> error_text e
error_text (count_recent e) = "count recent messages: " <> error_text e
error_text (unsupported_packet t) = "unsupported packet type " <> t
error_text (dial_quic e) = "dial quic: " <> error_text e
error_text (open_stream e) = "open stream: " <> error_text e
error_text (read_packet e) = "read packet: " <> error_text e
error_text (expected_conn_ack t) = "expected CONNACK, got " <> t
error_text bridge_not_connected = "bridge is not connected to broker"
error_text (listen_quic e) = "listen quic: " <> error_text e
error_text (accept_connection e) = "accept quic connection: " <> error_text e
error_text (load_key_pair e) = "load tls keypair: " <> error_text e
error_text (generate_private_key e) = "generate private key: " <> error_text e
error_text (create_certificate e) = "create certificate: " <> error_text e
error_text (parse_key_pair e) = "parse keypair: " <> error_text e
error_text (open_postgres e) = "open postgres: " <> error_text e
error_text (ping_postgres e) = "ping postgres: " <> error_text e
error_text (ensure_schema e) = "ensure schema: " <> error_text e
error_text (scan_message e) = "scan message: " <> error_text e
error_text (metrics_server e) = "metrics server: " <> error_text e
error_text payload_not_json = "payload must be valid json"
error_text (http_status u st b) = u <> " returned " <> st <> ": " <> b

-- A Go result `(A, error)`.
pub data Result (A : Type 0) : Type 0 where
  ok : A → Result A
  err : Error → Result A

-- A Go result `error`: `none` is `nil`.
abbrev pub wrap : (Error → Error) → Option Error → Option Error
wrap f none = none
wrap f (some e) = some (f e)

pub Result-cases :
    {A : Type 0} (r : Result A) → ((e : Error) × (r ≡ err e)) ⊎ ((a : A) × (r ≡ ok a))
Result-cases (err e) = inl (e, refl)
Result-cases (ok a) = inr (a, refl)

-- ===== src/Api/Handlers/Commands.antt =====
-- How a command comes from the API to the broker.
use carbmq_core.Base.{ℕ, ◌+◌, String, [], ◌∷◌, ◌++◌, none, some, ◌≡◌, refl, ap, if◌then◌else◌}
use carbmq_core.Base.Text.{◌<>◌}
use carbmq_core.Errors.{Result, ok, bridge_not_connected}
use carbmq_core.Config.{Config}
use carbmq_core.Qtt.Packet.{Packet, RawMessage, zero_packet, packet_publish}
use carbmq_core.Qtt.Client.{Outside, Link}
use carbmq_core.Qtt.Client.Calls.{send_works}
use carbmq_core.Wire.Value.{Json, TextLayer}
use carbmq_core.Wire.Encode.{encode}
use carbmq_core.Api.Bytes.{is_blank}
use carbmq_core.Api.Bridge.{Bridge, ClientId, publish_command}
use carbmq_core.Api.Handlers.{published, answer, send_command, write_error}

-- the bytes of a command: `{}` for a request that is empty or white space
abbrev pub command_payload : RawMessage → RawMessage
command_payload payload = if is_blank payload then b'{' ∷ b'}' ∷ [] else payload

-- the PUBLISH that `PublishCommand` makes
abbrev pub command_of : Config → Outside → String → RawMessage → Bridge → Packet
command_of cfg o id content b = record zero_packet {
  type = packet_publish;
  packet_id = o.new_packet_id b.link.calls;
  client_id = cfg.api.bridge_client_id;
  topic = "device/" <> id <> "/command";
  qos = cfg.api.command_qos;
  payload = command_payload content;
  timestamp = o.clock (b.link.calls + 1);
}

module _ (lib : TextLayer) (cfg : Config) (o : Outside) where
  publish_command_sends :
      (works : (n : ℕ) → o.send_fault n ≡ none) (id : String) (payload : RawMessage) (c : ClientId)
      (b : Bridge) (j : Json)
      → b.client ≡ some c
      → encode lib (command_of cfg o id payload b) ≡ some j
      → let (r, b') = publish_command lib cfg o id (command_payload payload) b in
        (r ≡ ok (command_of cfg o id payload b))
        × (b'.link.outgoing ≡ b.link.outgoing ++ command_of cfg o id payload b ∷ [])
  unfolding publish_command
  publish_command_sends works id payload c b j connected encodes =
      let p = command_of cfg o id payload b in
      let done = send_works o works p (record b.link { calls = b.link.calls + 2 }) in
      let outgoing = ap (λ (r : Result (Unit {0}) × Link). r.1.outgoing) done in
      rw (publish_command, connected, encodes, ap (λ r. r.0) done) (refl, outgoing)

  -- While the bridge has a client, sends work and the packet can be encoded, `sendCommand` answers 202
  -- with the one packet that it sends to the broker: the command, to the device's command topic, by
  -- the configured QoS.
  pub send_command_sends :
      (works : (n : ℕ) → o.send_fault n ≡ none) (id : String) (payload : RawMessage) (c : ClientId)
      (b : Bridge) (j : Json)
      → b.client ≡ some c
      → encode lib (command_of cfg o id payload b) ≡ some j
      → let p = command_of cfg o id payload b in
        let (r, b') = send_command lib cfg o id (ok payload) b in
        (r ≡ record { status = 202; body = published p })
        × (b'.link.outgoing ≡ b.link.outgoing ++ p ∷ [])
  unfolding send_command answer
  send_command_sends works id payload c b j connected encodes =
      let (sends, sent) = publish_command_sends works id payload c b j connected encodes in
      (rw (send_command, sends) refl, sent)

  -- While the bridge has no client, `sendCommand` answers 503 and changes nothing.
  send_command_unconnected :
      (id : String) (payload : RawMessage) (b : Bridge)
      → b.client ≡ none
      → send_command lib cfg o id (ok payload) b ≡ (write_error 503 bridge_not_connected, b)
  unfolding send_command answer publish_command
  send_command_unconnected id payload b idle = simp (send_command, publish_command, idle)

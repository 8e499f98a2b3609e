-- ===== src/Api/Handlers/Arrives.antt =====
-- The way of a command, from the request to the device.
use Prim.Native.Char.{Char}
use Prim.Native.String
use mathlib.Core.List.{Memᴰ}
use text.Mathlib.TextLemmas.{cons-append, cons-ne-nil}
use carbmq_core.Base.{
  ℕ, ◌+◌, String, true, List, [], ◌∷◌, ◌++◌, none, some, ◌≡◌, ◌≢◌, arith, sym, ◌∙◌, subst, eq_iff,
}
use carbmq_core.Base.Text.{◌<>◌, split}
use carbmq_core.Errors.{ok}
use carbmq_core.Config.{Config}
use carbmq_core.Qtt.Packet.{Packet, RawMessage, Subscription}
use carbmq_core.Qtt.Topic.{match_topic}
use carbmq_core.Qtt.Topic.Matching.{Matches, match_topic_iff}
use carbmq_core.Qtt.Client.{Outside}
use carbmq_core.Auth.Claims.{Claims}
use carbmq_core.Auth.Acl.{can_publish}
use carbmq_core.Broker.Session.{ConnId, get}
use carbmq_core.Broker.Subscription.{list}
use carbmq_core.Broker.State.{Env, Server, Works}
use carbmq_core.Broker.Router.Outcomes.{target_conn}
use carbmq_core.Broker.Server.{handle_publish}
use carbmq_core.Broker.Server.Connection.Arrives.{VisitsAll, handle_publish_arrives}
use carbmq_core.Api.Bridge.{Bridge, ClientId}
use carbmq_core.Wire.Value.{TextLayer, ◌>>=◌, >>=-eq-some}
use carbmq_core.Wire.Encode.{encode}
use carbmq_core.Wire.Decode.{decode, fits_int}
use carbmq_core.Wire.Forwards.{CompactsOnce, IsStamp, Compacted, encode_arrives}
use carbmq_core.Api.Handlers.{published, send_command}
use carbmq_core.Api.Handlers.Commands.{command_payload, command_of, send_command_sends}

Matches-refl : (parts : List String) → Matches parts parts
Matches-refl [] = Matches.done
Matches-refl (p ∷ ps) = Matches.same (Matches-refl ps)

match_topic_refl : (topic : String) → match_topic topic topic ≡ true
match_topic_refl topic = (match_topic_iff topic topic).1 (Matches-refl (split topic))

admin_publishes :
    (claims : Claims) (topic : String) → claims.role ≡ "admin" → can_publish claims topic ≡ none
unfolding can_publish
admin_publishes claims topic admin = ground (arith, eq_iff claims.role "admin")

abbrev letter : Char
letter = "d"

topic_not_empty : (rest : String) → ("device/" <> rest) ≢ ""
topic_not_empty rest h =
    cons-ne-nil letter (String.◌++◌ "evice/" rest) (sym (cons-append letter "evice/" rest) ∙ h)

-- While the bridge has a client, sends and statements work, the map of filters is visited whole, and
-- the configured QoS and the times of the bridge can be written: a command of JSON, or of white space
-- alone, that is posted for a device is answered by 202 with the one packet that the bridge sends. It
-- is encoded and decoded to a packet with the compacted payload, or the empty object for none; and a
-- broker that handles that from an admin accepts it, and sends a copy of it, with this payload on the
-- device's command topic, on the connection of every client that is online and has subscribed to that
-- topic. What `Compact` gives is taken to be compact JSON.
pub command_arrives :
    (lib : TextLayer) (once : CompactsOnce lib) (cfg : Config) (o : Outside)
    (out_works : (n : ℕ) → o.send_fault n ≡ none) (stamps : (n : ℕ) → IsStamp lib (o.clock n))
    (id : String) (payload compact : RawMessage) (cl : ClientId) (b : Bridge) (env : Env)
    (works : Works env) (conn : ConnId) (claims : Claims) (s : Server) (client : String)
    (sub : Subscription) (c : ConnId)
    → fits_int cfg.api.command_qos ≡ true
    → Compacted lib (command_payload payload) compact
    → b.client ≡ some cl
    → VisitsAll env
    → claims.role ≡ "admin"
    → Memᴰ sub (list client s.subscriptions)
    → sub.topic ≡ "device/" <> id <> "/command"
    → target_conn (get client s.sessions) ≡ some c
    → let (r, b') = send_command lib cfg o id (ok payload) b in
      (p received : Packet) × (r ≡ record { status = 202; body = published p })
      × (b'.link.outgoing ≡ b.link.outgoing ++ p ∷ [])
      × ((encode lib p >>= decode lib) ≡ some received)
      × (let (e, s') = handle_publish env conn cfg.api.bridge_client_id claims received s in
          (e ≡ none)
          × ((q : Packet) × (q.topic ≡ "device/" <> id <> "/command")
              × (q.payload ≡ compact)
              × Memᴰ (c, q) s'.sent))
command_arrives lib once cfg o out_works stamps id payload compact cl b env works conn claims s
      client sub c fits_qos compacts connected visits admin listed topic online =
    let p = command_of cfg o id payload b in
    let received : Packet = record p { payload = compact } in
    let arrives =
      encode_arrives lib once p compact fits_qos tt tt (stamps (b.link.calls + 1)) compacts in
    let (j, encodes, _) = >>=-eq-some (encode lib p) (decode lib) received arrives in
    let (answers, sends) =
      send_command_sends lib cfg o out_works id payload cl b j connected encodes in
    let given : ("device/" <> (id <> "/command")) ≢ "" = topic_not_empty (id <> "/command") in
    let fits = subst (λ t. match_topic sub.topic t ≡ true) topic (match_topic_refl sub.topic) in
    let (accepted, (q, copy, there)) =
      handle_publish_arrives env works conn cfg.api.bridge_client_id claims received s client sub c
        visits given (admin_publishes claims received.topic admin) listed fits online in
    (p, received, answers, sends, arrives, (accepted, (q, copy.topic, copy.payload, there)))

-- ===== src/Wire/Sent.antt =====
-- Every packet that the broker sends can be written to the wire.
use mathlib.Core.List.{Memᴰ}
use carbmq_core.Base.{String, List, [], ◌∷◌, some, ◌≡◌, refl, ◌⊎◌, inl, inr, All-mem}
use carbmq_core.Qtt.Packet.{Packet, RawMessage}
use carbmq_core.Broker.Session.{ConnId}
use carbmq_core.Broker.State.{Env, Server}
use carbmq_core.Broker.Router.Payloads.{Carries}
use carbmq_core.Broker.Server.Connection.Steps.{
  World, Reach, opens, receives, leaves, drops, begin, next,
}
use carbmq_core.Broker.Server.Connection.Carried.{Received, Reach-Carries}
use carbmq_core.Db.Tables.{empty_object}
use carbmq_core.Wire.Value.{Json, Source, obj, members, TextLayer}
use carbmq_core.Wire.Encode.{encode, payload_member, packet_members, joined}
use carbmq_core.Wire.Decode.{decode}
use carbmq_core.Wire.Keeps.{Holds}
use carbmq_core.Wire.Forwards.{IsJson, CompactsOnce}
use carbmq_core.Wire.Typed.{decode-IsTyped}

-- a payload that is empty, or the text of a JSON value
abbrev pub IsWritable : TextLayer → RawMessage → Type 0
IsWritable lib payload = (payload ≡ []) ⊎ IsJson lib payload

-- a packet that the decoder made of JSON whose members have texts of JSON
abbrev pub IsDecoded : TextLayer → Packet → Type 0
IsDecoded lib p = (j : Json) × Holds (λ s. IsJson lib s.text) j × (decode lib j ≡ some p)

module _ (lib : TextLayer) where
  Received-IsWritable :
      {env : Env} {s : Server} {w : World} (r : Reach env s w)
      → Received (IsDecoded lib) r
      → Received (λ p. IsWritable lib p.payload) r
  Received-IsWritable begin got = tt
  Received-IsWritable (next r (opens live s conn received)) got = Received-IsWritable r got
  Received-IsWritable (next r (receives live s l p listed goes_on)) got = (
    Received-IsWritable r got.0,
    (decode-IsTyped lib (IsJson lib) got.1.0 p got.1.1 got.1.2).as_written,
  )
  Received-IsWritable (next r (leaves before after s l p ends)) got = (
    Received-IsWritable r got.0,
    (decode-IsTyped lib (IsJson lib) got.1.0 p got.1.1 got.1.2).as_written,
  )
  Received-IsWritable (next r (drops before after s l)) got = Received-IsWritable r got

  writable_member :
      (payload : RawMessage)
      → CompactsOnce lib
      → IsWritable lib payload
      → (ms : List (String × Source)) × (payload_member lib payload ≡ some ms)
  unfolding payload_member
  writable_member [] once h = ([], refl)
  writable_member (b ∷ bs) once (inl h) = absurd cc
  writable_member (b ∷ bs) once (inr (text, compacted)) =
      let (_, _, _, (value, valid)) = once (b ∷ bs) text compacted in
      (("payload", record { text = text; value = value }) ∷ [], rw (compacted, valid) refl)

  writable_encodes :
      (p : Packet) (stamp : String)
      → CompactsOnce lib
      → IsWritable lib p.payload
      → lib.format_time p.timestamp ≡ some stamp
      → (j : Json) × (encode lib p ≡ some j)
  unfolding encode
  writable_encodes p stamp once h formats =
      let (ms, found) = writable_member p.payload once h in
      (obj (members (joined (packet_members lib p ms stamp))), rw (encode, found, formats))

-- In every sequence of handlers: if every packet that the connections receive was decoded from JSON
-- whose members have texts of JSON, and at the start the rows of the offline queue and what was sent
-- have payloads that are empty or texts of JSON, then every packet that the broker has sent is encoded
-- without an error, if its timestamp can be formatted. It is assumed that "{}" is JSON, that what the
-- database gives back for an empty or a JSON text is again one, and that what `Compact` gives is
-- compact JSON.
pub Reach-encodes :
    (lib : TextLayer) (env : Env) (s : Server) (w : World) (conn : ConnId) (p : Packet)
    (stamp : String)
    → IsJson lib empty_object
    → ((b : RawMessage) → IsWritable lib b → IsWritable lib (env.jsonb b))
    → CompactsOnce lib
    → (r : Reach env s w) → Received (IsDecoded lib) r
    → Carries (IsWritable lib) s
    → Memᴰ (conn, p) w.server.sent
    → lib.format_time p.timestamp ≡ some stamp
    → (j : Json) × (encode lib p ≡ some j)
Reach-encodes lib env s w conn p stamp braces back once r got h member formats =
    let carried =
      Reach-Carries (IsWritable lib) env s w (inr braces) (inl refl) back r
        (Received-IsWritable lib r got) h in
    writable_encodes lib p stamp once
      (All-mem (λ (e : ConnId × Packet). IsWritable lib e.1.payload) w.server.sent carried.sent
        member)
      formats

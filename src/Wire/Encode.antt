-- ===== src/Wire/Encode.antt =====
-- `JSONEncoder.Encode`: what encoding/json makes of a `Packet` by its tags.
use carbmq_core.Base.{
  ℤ, pos, int_eq, String, Bool, List, [], ◌∷◌, ◌++◌, Option, some, if◌then◌else◌, ◌==◌, map,
}
use carbmq_core.Qtt.Packet.{Subscription, Packet, RawMessage}
use carbmq_core.Wire.Value.{
  Json, Source, str, num, bool, arr, obj, items, members, TextLayer, written, ◌>>=◌,
}

-- a text under `omitempty`
unfoldable pub text_member : TextLayer → (name text : String) → List (String × Source)
text_member lib name text = if text == "" then [] else (name, written lib (str text)) ∷ []

unfoldable pub int_member : TextLayer → (name : String) → ℤ → List (String × Source)
int_member lib name n = if int_eq n (pos 0) then [] else (name, written lib (num n)) ∷ []

unfoldable pub bool_member : TextLayer → (name : String) → Bool → List (String × Source)
bool_member lib name flag = if flag then (name, written lib (bool flag)) ∷ [] else []

-- `json.RawMessage` under `omitempty`: its text has to be valid JSON, and is compacted.
unfoldable pub payload_member : TextLayer → RawMessage → Option (List (String × Source))
payload_member lib [] = some []
payload_member lib (b ∷ bs) = do
  text ← lib.compact (b ∷ bs)
  value ← lib.parse text
  some (("payload", record { text = text; value = value }) ∷ [])

-- `Subscription` has no `omitempty`.
unfoldable pub subscription_json : TextLayer → Subscription → Json
subscription_json lib s =
    obj (members (("topic", written lib (str s.topic)) ∷ ("qos", written lib (num s.qos)) ∷ []))

unfoldable pub subscriptions_member : TextLayer → List Subscription → List (String × Source)
subscriptions_member lib [] = []
subscriptions_member lib (s ∷ subs) =
    ("subscriptions", written lib (arr (items (map (subscription_json lib) (s ∷ subs))))) ∷ []

-- The list's order is that of the sorted keys, in which encoding/json writes a map.
unfoldable pub metadata_member : TextLayer → List (String × String) → List (String × Source)
metadata_member lib [] = []
metadata_member lib (e ∷ entries) =
    (
      "metadata",
      written lib (obj (members (map (λ m. (m.0, written lib (str m.1))) (e ∷ entries)))),
    )
    ∷ []

-- runs of members, one behind the other
abbrev pub joined : List (List (String × Source)) → List (String × Source)
joined [] = []
joined (run ∷ runs) = run ++ joined runs

-- the members in the order of the struct
unfoldable pub packet_members :
    TextLayer
    → Packet
    → (payload : List (String × Source)) (stamp : String) → List (List (String × Source))
packet_members lib p payload stamp =
    (("type", written lib (str p.type)) ∷ [])
    ∷ text_member lib "packetId" p.packet_id
    ∷ text_member lib "clientId" p.client_id
    ∷ text_member lib "token" p.token
    ∷ text_member lib "topic" p.topic
    ∷ int_member lib "qos" p.qos
    ∷ payload
    ∷ (("timestamp", written lib (str stamp)) ∷ [])
    ∷ subscriptions_member lib p.subscriptions
    ∷ bool_member lib "sessionPresent" p.session_present
    ∷ text_member lib "status" p.status
    ∷ text_member lib "code" p.code
    ∷ text_member lib "error" p.error
    ∷ metadata_member lib p.metadata
    ∷ []

-- `Encode`; `none` is an error, of which there are two: a payload that is not valid JSON, and a
-- timestamp past the year 9999.
unfoldable pub encode : TextLayer → Packet → Option Json
encode lib p = do
  payload ← payload_member lib p.payload
  stamp ← lib.format_time p.timestamp
  some (obj (members (joined (packet_members lib p payload stamp))))

-- ===== src/Tests/Wire.antt =====
-- The JSON of packets at concrete inputs.
use mathlib.Core.Option.{none-ne-some, some-injective}
use carbmq_core.Base.{
  ℕ, pos, String, true, false, List, [], ◌∷◌, Option, none, some, if◌then◌else◌, ◌==◌, nat_eq, ltb,
  ◌≡◌, ◌≢◌, refl, arith, eq_iff, inl, inr, subst, Bool-cases,
}
use carbmq_core.Qtt.Packet.{Packet, RawMessage, zero_packet}
use carbmq_core.Wire.Value.{
  Json, Source, written, end, null, num, str, bool, obj, arr, members, items, listed, TextLayer,
  ◌>>=◌,
}
use carbmq_core.Wire.Encode.{
  encode, payload_member, packet_members, text_member, int_member, subscriptions_member,
  subscription_json, bool_member, metadata_member,
}
use carbmq_core.Base.Assoc.{lookup}
use carbmq_core.Wire.Decode.{decode, into_struct, fill, field_named, into_text, into_int, into_raw}
use carbmq_core.Wire.RoundTrip.{IsSendable, decode-encode}
use carbmq_core.Wire.Refused.{IsUnknown, decode_unknown}
use carbmq_core.Wire.Forwards.{IsJson, CompactsOnce, Compacted, decode-encode-decode}
use carbmq_core.Wire.Keeps.{Holds}
use carbmq_core.Wire.Typed.{IsTyped, decode-IsTyped}

-- texts of one value, one time and one name with capitals; a text of a value may begin with a space
abbrev toy_parse : List ℕ → Option Json
toy_parse [] = none
toy_parse (c ∷ cs) =
    if nat_eq c b'{' then some (obj end) else if nat_eq c b'7' then some (num (pos 7)) else none

abbrev toy_print : Json → List ℕ
toy_print (obj ms) = b'{' ∷ b'}' ∷ []
toy_print _ = b'7' ∷ []

abbrev toy_compact : List ℕ → Option (List ℕ)
toy_compact [] = none
toy_compact (c ∷ cs) =
    if nat_eq c b'x'
    then none
    else if nat_eq c b'{'
    then some (b'{' ∷ b'}' ∷ [])
    else some (b'7' ∷ [])

abbrev pub toy_text : TextLayer
toy_text = record {
  parse = toy_parse;
  compact = toy_compact;
  print = toy_print;
  format_time = λ t. if ltb t 100 then some "0001-01-01T00:00:00.000000005Z" else none;
  parse_time = λ s. if s == "0001-01-01T00:00:00.000000005Z" then some 5 else none;
  fold_name = λ s. if s == "TOPIC" then "topic" else s;
}

abbrev AText : List ℕ → List ℕ → Type 0
AText text c =
    (text ≢ [])
    × (c ≢ [])
    × (toy_compact c ≡ some c)
    × ((value : Json) × (toy_parse c ≡ some value))

AText-of :
    (b : ℕ) (bs c : List ℕ)
    → (if nat_eq b b'{' then some (b'{' ∷ b'}' ∷ []) else some (b'7' ∷ [])) ≡ some c
    → AText (b ∷ bs) c
AText-of b bs c e = elim (Bool-cases (nat_eq b b'{')) [
  | inl brace ↦
      let same : some (b'{' ∷ b'}' ∷ []) ≡ some c = rw brace at e in
      subst (AText (b ∷ bs)) (some-injective _ _ same) (λ h. cc, λ h. cc, refl, (obj end, refl))
  | inr other ↦
      let same : some (b'7' ∷ []) ≡ some c = rw other at e in
      subst (AText (b ∷ bs)) (some-injective _ _ same) (λ h. cc, λ h. cc, refl, (num (pos 7), refl))
]

pub compacts_once : CompactsOnce toy_text
compacts_once [] c e = absurd cc
compacts_once (b ∷ bs) c e = elim (Bool-cases (nat_eq b b'x')) [
  | inl bad ↦ absurd (none-ne-some _ (rw bad at e))
  | inr fine ↦ AText-of b bs c (rw fine at e)
]

abbrev sevens : List ℕ
sevens = b'7' ∷ []

-- the text 7 is JSON
abbrev json : IsJson toy_text sevens
json = (sevens, refl)

-- a value with the text that is printed for it
abbrev pub w : Json → Source
w = written toy_text

abbrev pub telemetry : Packet
telemetry = record zero_packet {
  type = "PUBLISH";
  packet_id = "p1";
  topic = "device/d1/telemetry";
  qos = pos 1;
  payload = b'7' ∷ [];
  timestamp = 5;
  subscriptions = (record { topic = "a"; qos = pos 0 }) ∷ [];
  session_present = true;
  metadata = ("kind", "simulator") ∷ ("site", "lab") ∷ [];
}

abbrev pub wire : List (String × Source)
wire =
    ("type", w (str "PUBLISH"))
    ∷ ("packetId", w (str "p1"))
    ∷ ("topic", w (str "device/d1/telemetry"))
    ∷ ("qos", w (num (pos 1)))
    ∷ ("payload", w (num (pos 7)))
    ∷ ("timestamp", w (str "0001-01-01T00:00:00.000000005Z"))
    ∷ (
      "subscriptions",
      w (arr (items (obj (members (("topic", w (str "a")) ∷ ("qos", w (num (pos 0))) ∷ [])) ∷ []))),
    )
    ∷ ("sessionPresent", w (bool true))
    ∷ ("metadata", w (obj (members (("kind", w (str "simulator")) ∷ ("site", w (str "lab")) ∷ []))))
    ∷ []

encoded : encode toy_text telemetry ≡ some (obj (members wire))
unfolding encode payload_member packet_members text_member int_member subscriptions_member
    subscription_json bool_member metadata_member
encoded = refl

-- a payload that is not JSON is an error
not_encoded : encode toy_text (record telemetry { payload = b'x' ∷ [] }) ≡ none
unfolding encode payload_member
not_encoded = refl

-- names without regard to case, a member twice, and null
folded :
    decode toy_text
      (obj (members (("TOPIC", w (str "a")) ∷ ("code", w (str "x")) ∷ ("code", w (null)) ∷ [])))
    ≡ some (record zero_packet { topic = "a"; code = "x" })
unfolding decode into_struct fill field_named lookup into_text into_int members listed
folded = refl

too_large :
    decode toy_text (obj (members (("qos", w (num (pos 9_223_372_036_854_775_808))) ∷ []))) ≡ none
unfolding decode into_struct fill field_named lookup into_text into_int members listed
too_large = refl

sendable : IsSendable toy_text telemetry
sendable = record {
  qos_fits = refl;
  all_fit = (refl, tt);
  compact = inr (num (pos 7), refl, refl);
  stamp = "0001-01-01T00:00:00.000000005Z";
  formats = refl;
  parses = refl;
  one_of_each = ((ground (arith, eq_iff "kind" "site"), tt), (tt, tt));
}

decode-encode_example : (encode toy_text telemetry >>= decode toy_text) ≡ some telemetry
decode-encode_example = decode-encode toy_text telemetry sendable

differs : (s t : String) → (s == t) ≡ false → s ≢ t
differs s t h = ground (arith, eq_iff s t)

unknown : IsUnknown toy_text "retain"
unknown = (
  (differs "type" "retain" refl, differs "type" "retain" refl),
  (
    (differs "packetId" "retain" refl, differs "packetId" "retain" refl),
    (
      (differs "clientId" "retain" refl, differs "clientId" "retain" refl),
      (
        (differs "token" "retain" refl, differs "token" "retain" refl),
        (
          (differs "topic" "retain" refl, differs "topic" "retain" refl),
          (
            (differs "qos" "retain" refl, differs "qos" "retain" refl),
            (
              (differs "payload" "retain" refl, differs "payload" "retain" refl),
              (
                (differs "timestamp" "retain" refl, differs "timestamp" "retain" refl),
                (
                  (differs "subscriptions" "retain" refl, differs "subscriptions" "retain" refl),
                  (
                    (
                      differs "sessionPresent" "retain" refl,
                      differs "sessionPresent" "retain" refl,
                    ),
                    (
                      (differs "status" "retain" refl, differs "status" "retain" refl),
                      (
                        (differs "code" "retain" refl, differs "code" "retain" refl),
                        (
                          (differs "error" "retain" refl, differs "error" "retain" refl),
                          (
                            (differs "metadata" "retain" refl, differs "metadata" "retain" refl),
                            tt,
                          ),
                        ),
                      ),
                    ),
                  ),
                ),
              ),
            ),
          ),
        ),
      ),
    ),
  ),
)

decode_unknown_example :
    decode toy_text (obj (members (("type", w (str "PING")) ∷ ("retain", w (bool true)) ∷ [])))
    ≡ none
decode_unknown_example =
    decode_unknown toy_text "retain" (w (bool true)) (("type", w (str "PING")) ∷ []) [] unknown

decode-IsTyped_example : IsTyped (IsJson toy_text) (record zero_packet { topic = "a"; code = "x" })
unfolding members listed
decode-IsTyped_example =
    decode-IsTyped toy_text (IsJson toy_text)
      (obj (members (("TOPIC", w (str "a")) ∷ ("code", w (str "x")) ∷ ("code", w (null)) ∷ [])))
      (record zero_packet { topic = "a"; code = "x" }) (json, (json, (json, tt))) folded

-- a payload, which is kept as it is written, with the space in front
abbrev pub spaced_wire : List (String × Source)
spaced_wire =
    ("type", w (str "PUBLISH"))
    ∷ ("packetId", w (str "p1"))
    ∷ ("topic", w (str "device/d1/telemetry"))
    ∷ ("qos", w (num (pos 1)))
    ∷ ("payload", record { text = b' ' ∷ b'7' ∷ []; value = num (pos 7) })
    ∷ []

abbrev pub received : Packet
received = record zero_packet {
  type = "PUBLISH";
  packet_id = "p1";
  topic = "device/d1/telemetry";
  qos = pos 1;
  payload = b' ' ∷ b'7' ∷ [];
}

pub taken : decode toy_text (obj (members spaced_wire)) ≡ some received
unfolding decode into_struct fill field_named lookup into_text into_int into_raw members listed
taken = refl

pub all_json : Holds (λ s. IsJson toy_text s.text) (obj (members spaced_wire))
unfolding members listed
all_json = (json, (json, (json, (json, ((b'7' ∷ [], refl), tt)))))

decode-encode-decode_example :
    (c : RawMessage) × Compacted toy_text received.payload c
    × ((encode toy_text (record received { timestamp = 5 }) >>= decode toy_text)
        ≡ some (record received { timestamp = 5; payload = c }))
decode-encode-decode_example =
    decode-encode-decode toy_text compacts_once (obj (members spaced_wire)) received 5
      ("0001-01-01T00:00:00.000000005Z", refl, refl) all_json taken

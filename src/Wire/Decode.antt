-- ===== src/Wire/Decode.antt =====
-- `JSONDecoder.Decode`: what encoding/json makes of a JSON value for a `Packet`, unknown fields
-- disallowed. `none` is an error; which of several is reported is left out. A member that comes
-- twice is decoded into what the first left, except for what Go may keep behind a slice's end.
use carbmq_core.Base.{
  ℤ, pos, negsuc, leb_ℤ, String, Bool, ◌&&◌, List, [], ◌∷◌, Option, none, some, if◌then◌else◌, map,
}
use carbmq_core.Base.Assoc.{Entries, lookup, insert}
use carbmq_core.Qtt.Packet.{Subscription, Packet, RawMessage, Time, zero_packet}
use carbmq_core.Wire.Value.{
  Json, Source, null, bool, num, str, arr, obj, listed_items, listed, TextLayer, ◌>>=◌,
}

-- What a value makes of the place that it is decoded into.
abbrev pub Setter : Type 0 → Type 0
Setter P = Source → P → Option P

-- What a value makes of what a place holds.
abbrev pub Reader : Type 0 → Type 0
Reader A = Json → A → Option A

-- JSON's null leaves a text, a number and a Boolean as they are.
unfoldable pub into_text : Reader String
into_text null old = some old
into_text (str s) old = some s
into_text _ old = none

-- the range of an int
abbrev pub fits_int : ℤ → Bool
fits_int n = leb_ℤ n (pos 9_223_372_036_854_775_807) && leb_ℤ (negsuc 9_223_372_036_854_775_807) n

unfoldable pub into_int : Reader ℤ
into_int null old = some old
into_int (num n) old = if fits_int n then some n else none
into_int _ old = none

unfoldable pub into_bool : Reader Bool
into_bool null old = some old
into_bool (bool flag) old = some flag
into_bool _ old = none

-- `Time.UnmarshalJSON`
unfoldable pub into_time : TextLayer → Reader Time
into_time lib null old = some old
into_time lib (str s) old = lib.parse_time s
into_time lib _ old = none

-- `RawMessage.UnmarshalJSON` keeps the text of every value as it is written, also of null.
unfoldable pub into_raw : Setter RawMessage
into_raw source old = some source.text

module _ {P : Type 0} (fold_name : String → String) (fields : Entries (Setter P)) where
  -- a field by its name, or else by its name without regard to case
  unfoldable pub field_named : String → Option (Setter P)
  field_named name = elim (lookup name fields) [
    | some set ↦ some set
    | none ↦ lookup (fold_name name) (map (λ e. (fold_name e.0, e.1)) fields)
  ]

  -- the members of an object, in their order; `DisallowUnknownFields`
  unfoldable pub fill : List (String × Source) → P → Option P
  fill [] p = some p
  fill ((name, value) ∷ rest) p = elim (field_named name) [
    | none ↦ none
    | some set ↦ elim (set value p) [ none ↦ none | some p' ↦ fill rest p' ]
  ]

  unfoldable pub into_struct : Reader P
  into_struct null p = some p
  into_struct (obj ms) p = fill (listed ms) p
  into_struct _ p = none

abbrev pub subscription_fields : Entries (Setter Subscription)
subscription_fields =
    ("topic", λ j s. into_text j.value s.topic >>= λ v. some (record s { topic = v }))
    ∷ ("qos", λ j s. into_int j.value s.qos >>= λ v. some (record s { qos = v }))
    ∷ []

abbrev zero_subscription : Subscription
zero_subscription = record { topic = ""; qos = pos 0 }

-- the elements of an array, over those of the slice
unfoldable pub fill_items : TextLayer → List Json → List Subscription → Option (List Subscription)
fill_items lib [] old = some []
fill_items lib (j ∷ js) [] = do
  s ← into_struct lib.fold_name subscription_fields j zero_subscription
  rest ← fill_items lib js []
  some (s ∷ rest)
fill_items lib (j ∷ js) (o ∷ old) = do
  s ← into_struct lib.fold_name subscription_fields j o
  rest ← fill_items lib js old
  some (s ∷ rest)

unfoldable pub into_subscriptions : TextLayer → Reader (List Subscription)
into_subscriptions lib null old = some []
into_subscriptions lib (arr js) old = fill_items lib (listed_items js) old
into_subscriptions lib _ old = none

-- every member is a new entry, or overwrites one
unfoldable pub fill_map : List (String × Source) → Entries String → Option (Entries String)
fill_map [] old = some old
fill_map ((key, value) ∷ rest) old =
    into_text value.value "" >>= λ v. fill_map rest (insert key v old)

unfoldable pub into_metadata : Reader (Entries String)
into_metadata null old = some []
into_metadata (obj ms) old = fill_map (listed ms) old
into_metadata _ old = none

-- the fields of `Packet` with the names of their tags
abbrev pub packet_fields : TextLayer → Entries (Setter Packet)
packet_fields lib =
    ("type", λ j p. into_text j.value p.type >>= λ v. some (record p { type = v }))
    ∷ ("packetId", λ j p. into_text j.value p.packet_id >>= λ v. some (record p { packet_id = v }))
    ∷ ("clientId", λ j p. into_text j.value p.client_id >>= λ v. some (record p { client_id = v }))
    ∷ ("token", λ j p. into_text j.value p.token >>= λ v. some (record p { token = v }))
    ∷ ("topic", λ j p. into_text j.value p.topic >>= λ v. some (record p { topic = v }))
    ∷ ("qos", λ j p. into_int j.value p.qos >>= λ v. some (record p { qos = v }))
    ∷ ("payload", λ j p. into_raw j p.payload >>= λ v. some (record p { payload = v }))
    ∷ (
      "timestamp",
      λ j p. into_time lib j.value p.timestamp >>= λ v. some (record p { timestamp = v }),
    )
    ∷ (
      "subscriptions",
      λ j p. into_subscriptions lib j.value p.subscriptions >>= λ v.
          some (record p { subscriptions = v }),
    )
    ∷ (
      "sessionPresent",
      λ j p. into_bool j.value p.session_present >>= λ v. some (record p { session_present = v }),
    )
    ∷ ("status", λ j p. into_text j.value p.status >>= λ v. some (record p { status = v }))
    ∷ ("code", λ j p. into_text j.value p.code >>= λ v. some (record p { code = v }))
    ∷ ("error", λ j p. into_text j.value p.error >>= λ v. some (record p { error = v }))
    ∷ (
      "metadata",
      λ j p. into_metadata j.value p.metadata >>= λ v. some (record p { metadata = v }),
    )
    ∷ []

-- `Decode`
unfoldable pub decode : TextLayer → Json → Option Packet
decode lib value = into_struct lib.fold_name (packet_fields lib) value zero_packet

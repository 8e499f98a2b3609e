-- ===== src/Wire/Typed.antt =====
-- What every decoded packet is: its ints are in range, and its map has each key once.
use mathlib.Core.Option.{some-injective}
use carbmq_core.Base.{
  ℤ, String, true, List, Option, some, ◌≡◌, refl, All, ◌&◌, [], ◌⊎◌, inl, inr, subst,
}
use carbmq_core.Base.Assoc.{Entries}
use carbmq_core.Qtt.Packet.{Subscription, Packet, RawMessage, zero_packet}
use carbmq_core.Wire.Value.{Json, Source, TextLayer, ◌>>=◌}
use carbmq_core.Wire.Decode.{
  Setter, decode, into_bool, into_raw, into_time, packet_fields, fits_int, into_int,
  into_subscriptions, into_metadata, into_text,
}
use carbmq_core.Wire.Maps.{KeysDistinct}
use carbmq_core.Wire.Places.{into_int-fits, into_subscriptions-AllFit, into_metadata-KeysDistinct}
use carbmq_core.Wire.Keeps.{Holds, Keeps, into_struct-Keeps, kept}

pub record AreTyped (V : RawMessage → Type 0) (qos : ℤ) (payload : RawMessage)
    (subscriptions : List Subscription) (metadata : Entries String) : Type 0 where
  pub qos_fits : fits_int qos ≡ true
  pub all_fit : All (λ s. fits_int s.qos ≡ true) subscriptions
  pub one_of_each : KeysDistinct metadata
  pub as_written : (payload ≡ []) ⊎ V payload

-- the ints of a packet are in range, its metadata has each key once, and its payload is empty or has
-- the property `V`
abbrev pub IsTyped : (RawMessage → Type 0) → Packet → Type 0
IsTyped V p = AreTyped V p.qos p.payload p.subscriptions p.metadata

module _ (lib : TextLayer) (V : RawMessage → Type 0) where
  abbrev Written : Source → Type 0
  Written j = V j.text

  abbrev Kept : Setter Packet → Type 0
  Kept = Keeps Written (IsTyped V) lib.fold_name

  -- a field that is none of the four
  plain :
      {A : Type 0} (into : Source → Packet → Option A) (put : A → Packet → Packet)
      → ((v : A) (p : Packet) → IsTyped V p → IsTyped V (put v p))
      → Kept (λ j p. into j p >>= λ v. some (put v p))
  plain into put same j p q w h e =
      kept Written (IsTyped V) lib.fold_name (into j p) (λ v. put v p) q (λ v _. same v p h) e

  qos-Kept : Kept (λ j p. into_int j.value p.qos >>= λ v. some (record p { qos = v }))
  qos-Kept j p q w h e =
      kept Written (IsTyped V) lib.fold_name (into_int j.value p.qos) (λ v. record p { qos = v }) q
        (λ v k. record {
          qos_fits = into_int-fits j.value p.qos v h.qos_fits k;
          all_fit = h.all_fit;
          one_of_each = h.one_of_each;
          as_written = h.as_written;
        })
        e

  subscriptions-Kept : Kept (λ j p.
      into_subscriptions lib j.value p.subscriptions >>= λ v. some (record p { subscriptions = v }))
  subscriptions-Kept j p q w h e =
      kept Written (IsTyped V) lib.fold_name (into_subscriptions lib j.value p.subscriptions)
        (λ v. record p { subscriptions = v }) q
        (λ v k. record {
          qos_fits = h.qos_fits;
          all_fit = into_subscriptions-AllFit lib j.value p.subscriptions v h.all_fit k;
          one_of_each = h.one_of_each;
          as_written = h.as_written;
        })
        e

  payload-Kept : Kept (λ j p. into_raw j p.payload >>= λ v. some (record p { payload = v }))
  unfolding into_raw
  payload-Kept j p q w h e =
      kept Written (IsTyped V) lib.fold_name (into_raw j p.payload) (λ v. record p { payload = v })
        q
        (λ v k. record {
          qos_fits = h.qos_fits;
          all_fit = h.all_fit;
          one_of_each = h.one_of_each;
          as_written = inr (subst V (some-injective _ _ k) w);
        })
        e

  metadata-Kept :
      Kept (λ j p. into_metadata j.value p.metadata >>= λ v. some (record p { metadata = v }))
  metadata-Kept j p q w h e =
      kept Written (IsTyped V) lib.fold_name (into_metadata j.value p.metadata)
        (λ v. record p { metadata = v }) q
        (λ v k. record {
          qos_fits = h.qos_fits;
          all_fit = h.all_fit;
          one_of_each = into_metadata-KeysDistinct j.value p.metadata v h.one_of_each k;
          as_written = h.as_written;
        })
        e

  packet_fields-Kept : All (λ (e : String × Setter Packet). Kept e.1) (packet_fields lib)
  packet_fields-Kept =
      plain (λ j p. into_text j.value p.type) (λ v p. record p { type = v }) (λ v p h. h)
      & plain (λ j p. into_text j.value p.packet_id) (λ v p. record p { packet_id = v })
          (λ v p h. h)
      & plain (λ j p. into_text j.value p.client_id) (λ v p. record p { client_id = v })
          (λ v p h. h)
      & plain (λ j p. into_text j.value p.token) (λ v p. record p { token = v }) (λ v p h. h)
      & plain (λ j p. into_text j.value p.topic) (λ v p. record p { topic = v }) (λ v p h. h)
      & qos-Kept
      & payload-Kept
      & plain (λ j p. into_time lib j.value p.timestamp) (λ v p. record p { timestamp = v })
          (λ v p h. h)
      & subscriptions-Kept
      & plain (λ j p. into_bool j.value p.session_present) (λ v p. record p { session_present = v })
          (λ v p h. h)
      & plain (λ j p. into_text j.value p.status) (λ v p. record p { status = v }) (λ v p h. h)
      & plain (λ j p. into_text j.value p.code) (λ v p. record p { code = v }) (λ v p h. h)
      & plain (λ j p. into_text j.value p.error) (λ v p. record p { error = v }) (λ v p h. h)
      & metadata-Kept
      & tt

  -- Every packet that is decoded, from whatever JSON, has an int for its quality of service and for
  -- those of its subscriptions, has each key of its metadata once, and its payload is empty or has
  -- every property that the texts of the members have, as they are written.
  pub decode-IsTyped :
      (j : Json) (p : Packet) → Holds Written j → decode lib j ≡ some p → IsTyped V p
  unfolding decode
  decode-IsTyped j p w e =
      into_struct-Keeps Written (IsTyped V) lib.fold_name (packet_fields lib) packet_fields-Kept j
        zero_packet p w
        (record { qos_fits = refl; all_fit = tt; one_of_each = tt; as_written = inl refl }) e

-- ===== src/Wire/RoundTrip.antt =====
-- A packet comes back from its JSON.
use carbmq_core.Base.{
  ℤ, pos, String, Bool, true, false, List, [], ◌∷◌, ◌++◌, Option, some, ◌≡◌, refl, ◌∙◌, All,
}
use carbmq_core.Base.Assoc.{lookup}
use carbmq_core.Qtt.Packet.{Subscription, Packet, RawMessage, Time, zero_packet}
use carbmq_core.Wire.Value.{Source, written, str, TextLayer, ◌>>=◌, listed-members}
use carbmq_core.Wire.Encode.{
  encode, packet_members, joined, subscriptions_member, metadata_member, text_member, int_member,
  bool_member,
}
use carbmq_core.Wire.Decode.{
  decode, into_struct, fill, field_named, packet_fields, into_text, into_int, into_bool, into_time,
  into_raw, fits_int,
}
use carbmq_core.Wire.Fields.{
  fill_then, fill_member, fill-text_member, fill-int_member, fill-bool_member,
}
use carbmq_core.Wire.Maps.{KeysDistinct}
use carbmq_core.Wire.Members.{
  IsCompact, filled, payload_filled, subscriptions_filled, metadata_filled,
}

-- What a packet has to be for its JSON to tell all of it.
pub record IsSendable (lib : TextLayer) (p : Packet) : Type 0 where
  pub qos_fits : fits_int p.qos ≡ true
  pub all_fit : All (λ s. fits_int s.qos ≡ true) p.subscriptions
  pub compact : IsCompact lib p.payload
  pub stamp : String
  pub formats : lib.format_time p.timestamp ≡ some stamp
  pub parses : lib.parse_time stamp ≡ some p.timestamp
  pub one_of_each : KeysDistinct p.metadata

-- A packet of which the first fields are given, and the others are zero.
module _ (p : Packet) where
  abbrev upto_qos : ℤ → Packet
  upto_qos n = record zero_packet {
    type = p.type;
    packet_id = p.packet_id;
    client_id = p.client_id;
    token = p.token;
    topic = p.topic;
    qos = n;
  }

  abbrev upto_payload : RawMessage → Packet
  upto_payload b = record (upto_qos p.qos) { payload = b }

  abbrev upto_timestamp : Time → Packet
  upto_timestamp t = record (upto_payload p.payload) { timestamp = t }

  abbrev upto_subscriptions : List Subscription → Packet
  upto_subscriptions subs = record (upto_timestamp p.timestamp) { subscriptions = subs }

  abbrev upto_session_present : Bool → Packet
  upto_session_present flag = record (upto_subscriptions p.subscriptions) { session_present = flag }

  abbrev upto_error : String → String → String → Packet
  upto_error status code error = record (upto_session_present p.session_present) {
    status = status;
    code = code;
    error = error;
  }

  abbrev upto_metadata : List (String × String) → Packet
  upto_metadata entries = record (upto_error p.status p.code p.error) { metadata = entries }

module _ (lib : TextLayer) where
  -- one run of members
  run_then :
      (ms rest : List (String × Source)) (p q : Packet) {r : Option Packet}
      → filled lib ms p ≡ some q
      → filled lib rest q ≡ r
      → filled lib (ms ++ rest) p ≡ r
  run_then ms rest p q h k = fill_then lib lib.fold_name (packet_fields lib) ms rest p q h ∙ k

  text_then :
      (name : String) (set : Source → Packet → Option Packet)
      → field_named lib.fold_name (packet_fields lib) name ≡ some set
      → (f : String → Packet) (text : String) (rest : List (String × Source)) {r : Option Packet}
      → set (written lib (str text)) (f "") ≡ some (f text)
      → filled lib rest (f text) ≡ r
      → filled lib (text_member lib name text ++ rest) (f "") ≡ r
  text_then name set found f text rest h k =
      run_then (text_member lib name text) rest (f "") (f text)
        (fill-text_member lib lib.fold_name (packet_fields lib) name set found f text h) k

  module _ (p : Packet) where
    -- the texts before the payload, and the quality of service
    head_filled :
        (rest : List (List (String × Source))) {r : Option Packet}
        → fits_int p.qos ≡ true
        → filled lib (joined rest) (upto_qos p p.qos) ≡ r
        → filled lib
            (joined (
              (("type", written lib (str p.type)) ∷ [])
              ∷ text_member lib "packetId" p.packet_id
              ∷ text_member lib "clientId" p.client_id
              ∷ text_member lib "token" p.token
              ∷ text_member lib "topic" p.topic
              ∷ int_member lib "qos" p.qos
              ∷ rest))
            zero_packet
          ≡ r
    unfolding field_named lookup into_text into_int
    head_filled rest fits k =
        run_then (("type", written lib (str p.type)) ∷ []) _ zero_packet
          (record zero_packet { type = p.type })
          (fill_member lib lib.fold_name (packet_fields lib) "type" _ refl
            (written lib (str p.type)) zero_packet _ refl)
          (text_then "packetId" _ refl (λ v. record zero_packet { type = p.type; packet_id = v })
            p.packet_id _ refl
            (text_then "clientId" _ refl
              (λ v. record zero_packet { type = p.type; packet_id = p.packet_id; client_id = v })
              p.client_id _ refl
              (text_then "token" _ refl
                (λ v. record zero_packet {
                  type = p.type;
                  packet_id = p.packet_id;
                  client_id = p.client_id;
                  token = v;
                })
                p.token _ refl
                (text_then "topic" _ refl
                  (λ v. record zero_packet {
                    type = p.type;
                    packet_id = p.packet_id;
                    client_id = p.client_id;
                    token = p.token;
                    topic = v;
                  })
                  p.topic _ refl
                  (run_then (int_member lib "qos" p.qos) (joined rest) (upto_qos p (pos 0))
                    (upto_qos p p.qos)
                    (fill-int_member lib lib.fold_name (packet_fields lib) "qos" _ refl (upto_qos p)
                      p.qos (rw (into_int, fits)))
                    k)))))

    abbrev last_runs : List (List (String × Source))
    last_runs =
        bool_member lib "sessionPresent" p.session_present
        ∷ text_member lib "status" p.status
        ∷ text_member lib "code" p.code
        ∷ text_member lib "error" p.error
        ∷ metadata_member lib p.metadata
        ∷ []

    -- the flag and the texts behind the subscriptions, and the metadata
    tail_filled :
        KeysDistinct p.metadata
        → filled lib (joined last_runs) (upto_subscriptions p p.subscriptions) ≡ some p
    unfolding field_named lookup into_text into_bool fill
    tail_filled distinct =
        run_then (bool_member lib "sessionPresent" p.session_present) _
          (upto_session_present p false) (upto_session_present p p.session_present)
          (fill-bool_member lib lib.fold_name (packet_fields lib) "sessionPresent" _ refl
            (upto_session_present p) p.session_present refl)
          (text_then "status" _ refl (λ v. upto_error p v "" "") p.status _ refl
            (text_then "code" _ refl (λ v. upto_error p p.status v "") p.code _ refl
              (text_then "error" _ refl (λ v. upto_error p p.status p.code v) p.error _ refl
                (run_then (metadata_member lib p.metadata) [] (upto_metadata p []) p
                  (metadata_filled lib p.metadata (upto_metadata p) distinct (λ j h.
                    fill_member lib lib.fold_name (packet_fields lib) "metadata" _ refl j
                      (upto_metadata p []) _ (rw h)))
                  refl))))

    -- all members, given that of the payload
    packet_filled :
        (s : IsSendable lib p) (payload : List (String × Source))
        → filled lib payload (upto_payload p []) ≡ some (upto_payload p p.payload)
        → filled lib (joined (packet_members lib p payload s.stamp)) zero_packet ≡ some p
    unfolding packet_members field_named lookup into_time
    packet_filled s payload h =
        head_filled
          (payload
            ∷ (("timestamp", written lib (str s.stamp)) ∷ [])
            ∷ subscriptions_member lib p.subscriptions
            ∷ last_runs)
          s.qos_fits
          (run_then payload _ (upto_payload p []) (upto_payload p p.payload) h (
            run_then (("timestamp", written lib (str s.stamp)) ∷ []) _ (upto_payload p p.payload)
              (upto_timestamp p p.timestamp)
              (fill_member lib lib.fold_name (packet_fields lib) "timestamp" _ refl
                (written lib (str s.stamp)) (upto_payload p p.payload) _ (rw s.parses))
              (run_then (subscriptions_member lib p.subscriptions) _ (upto_subscriptions p [])
                (upto_subscriptions p p.subscriptions)
                (subscriptions_filled lib p.subscriptions (upto_subscriptions p) s.all_fit (λ j e.
                  fill_member lib lib.fold_name (packet_fields lib) "subscriptions" _ refl j
                    (upto_subscriptions p []) _ (rw e)))
                (tail_filled s.one_of_each))))

  -- Decoding what encoding made of a packet gives the packet again, if its quality of service and
  -- those of its subscriptions are ints, its payload is empty or compact JSON that is read and
  -- printed back, its timestamp is formatted and parsed back, and its metadata has each key once.
  pub decode-encode : (p : Packet) → IsSendable lib p → (encode lib p >>= decode lib) ≡ some p
  unfolding encode decode into_struct field_named lookup into_raw
  decode-encode p s =
      let (ms, found, payload) = payload_filled lib p.payload (upto_payload p) s.compact (λ j.
        fill_member lib lib.fold_name (packet_fields lib) "payload" _ refl j (upto_payload p []) _
          refl) in
      rw (found, s.formats, listed-members) (packet_filled p s ms payload)

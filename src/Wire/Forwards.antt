-- ===== src/Wire/Forwards.antt =====
-- What was read from the wire can be written to it again.
use carbmq_core.Base.{String, true, All, [], ◌∷◌, some, ◌≡◌, ◌≢◌, ◌⊎◌, refl, inl, inr}
use carbmq_core.Qtt.Packet.{Packet, RawMessage, Time}
use carbmq_core.Wire.Value.{Json, TextLayer, ◌>>=◌}
use carbmq_core.Wire.Encode.{encode, payload_member, packet_members}
use carbmq_core.Wire.Decode.{decode, fits_int}
use carbmq_core.Wire.Maps.{KeysDistinct}
use carbmq_core.Wire.Keeps.{Holds}
use carbmq_core.Wire.Members.{IsCompact}
use carbmq_core.Wire.RoundTrip.{decode-encode}
use carbmq_core.Wire.Typed.{decode-IsTyped}

-- the text of a JSON value
abbrev pub IsJson : TextLayer → RawMessage → Type 0
IsJson lib text = (compacted : RawMessage) × (lib.compact text ≡ some compacted)

-- What package encoding/json documents of `Compact`: the empty text is no JSON; what it gives is the
-- text of a JSON value, and stays as it is when it is compacted again.
abbrev pub CompactsOnce : TextLayer → Type 0
CompactsOnce lib =
    (text compacted : RawMessage)
    → lib.compact text ≡ some compacted
    → (text ≢ [])
      × (compacted ≢ [])
      × (lib.compact compacted ≡ some compacted)
      × ((value : Json) × (lib.parse compacted ≡ some value))

-- The payload without white space: none stays none.
abbrev pub Compacted : TextLayer → (payload compacted : RawMessage) → Type 0
Compacted lib [] c = c ≡ []
Compacted lib (b ∷ bs) c = lib.compact (b ∷ bs) ≡ some c

-- A time that RFC 3339 can tell, which is read back.
abbrev pub IsStamp : TextLayer → Time → Type 0
IsStamp lib time =
    (stamp : String) × (lib.format_time time ≡ some stamp) × (lib.parse_time stamp ≡ some time)

module _ (lib : TextLayer) (once : CompactsOnce lib) where
  Compacted-exists :
      (payload : RawMessage)
      → (payload ≡ []) ⊎ IsJson lib payload
      → (c : RawMessage) × Compacted lib payload c
  Compacted-exists [] h = ([], refl)
  Compacted-exists (b ∷ bs) (inl h) = absurd cc
  Compacted-exists (b ∷ bs) (inr h) = h

  Compacted-IsCompact : (payload c : RawMessage) → Compacted lib payload c → IsCompact lib c
  Compacted-IsCompact [] c e = inl e
  Compacted-IsCompact (b ∷ bs) c e =
      let (_, _, again, (value, parsed)) = once (b ∷ bs) c e in inr (value, parsed, again)

  -- encoding does not tell a payload from the compacted one
  payload_member_same :
      (payload c : RawMessage)
      → Compacted lib payload c
      → payload_member lib payload ≡ payload_member lib c
  unfolding payload_member
  payload_member_same [] [] e = refl
  payload_member_same [] (d ∷ ds) e = absurd cc
  payload_member_same (b ∷ bs) [] e = let (_, full, _, _) = once (b ∷ bs) [] e in absurd (full refl)
  payload_member_same (b ∷ bs) (d ∷ ds) e =
      let (_, _, again, _) = once (b ∷ bs) (d ∷ ds) e in rw (e, again) refl

  -- A packet whose ints fit, with each key of its metadata once, a payload that is empty or JSON, and a
  -- time that can be written, is encoded to JSON from which it is decoded with the compacted payload.
  pub encode_arrives :
      (p : Packet) (c : RawMessage)
      → fits_int p.qos ≡ true
      → All (λ s. fits_int s.qos ≡ true) p.subscriptions
      → KeysDistinct p.metadata
      → IsStamp lib p.timestamp
      → Compacted lib p.payload c
      → (encode lib p >>= decode lib) ≡ some (record p { payload = c })
  unfolding encode packet_members
  encode_arrives p c fits all_fit distinct (stamp, formats, parses) made =
      let back =
        decode-encode lib (record p { payload = c })
          (record {
            qos_fits = fits;
            all_fit = all_fit;
            compact = Compacted-IsCompact p.payload c made;
            stamp = stamp;
            formats = formats;
            parses = parses;
            one_of_each = distinct;
          }) in
      rw (encode, payload_member_same p.payload c made) back

  -- A packet that was decoded from JSON whose members have texts of JSON, and is given a timestamp
  -- that can be written, is encoded without an error to JSON from which the same packet is decoded,
  -- but for the white space of its payload, which is gone, if what `Compact` gives is compact JSON.
  pub decode-encode-decode :
      (j : Json) (p : Packet) (now : Time)
      → IsStamp lib now
      → Holds (λ s. IsJson lib s.text) j
      → decode lib j ≡ some p
      → (c : RawMessage) × Compacted lib p.payload c
        × ((encode lib (record p { timestamp = now }) >>= decode lib)
            ≡ some (record p { timestamp = now; payload = c }))
  decode-encode-decode j p now stamped written e =
      let typed = decode-IsTyped lib (IsJson lib) j p written e in
      let (c, made) = Compacted-exists p.payload typed.as_written in
      (
        c,
        made,
        encode_arrives (record p { timestamp = now }) c typed.qos_fits typed.all_fit
            typed.one_of_each stamped made,
      )

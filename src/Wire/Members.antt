-- ===== src/Wire/Members.antt =====
-- The members of a packet that are no scalars, decoded into a packet without them.
use carbmq_core.Base.{String, true, List, [], ◌∷◌, Option, some, ◌≡◌, refl, map, ◌⊎◌, inl, inr, All}
use carbmq_core.Qtt.Packet.{Subscription, Packet, RawMessage}
use carbmq_core.Wire.Value.{
  Json, Source, written, str, TextLayer, listed-members, listed_items-items, items, arr, obj,
  members,
}
use carbmq_core.Wire.Encode.{
  payload_member, subscription_json, subscriptions_member, metadata_member,
}
use carbmq_core.Wire.Decode.{fill, packet_fields, into_subscriptions, into_metadata, fits_int}
use carbmq_core.Wire.Fields.{fill_items-map}
use carbmq_core.Wire.Maps.{KeysDistinct, fill_map-map}

-- a payload that is compact JSON, or none
abbrev pub IsCompact : TextLayer → RawMessage → Type 0
IsCompact lib payload =
    (payload ≡ [])
    ⊎ ((value : Json) × (lib.parse payload ≡ some value) × (lib.compact payload ≡ some payload))

module _ (lib : TextLayer) where
  abbrev pub filled : List (String × Source) → Packet → Option Packet
  filled = fill lib.fold_name (packet_fields lib)

  -- the payload's member, if the payload is sendable
  pub payload_filled :
      (payload : RawMessage) (f : RawMessage → Packet)
      → IsCompact lib payload
      → ((j : Source) → filled (("payload", j) ∷ []) (f []) ≡ some (f j.text))
      → (ms : List (String × Source)) × (payload_member lib payload ≡ some ms)
        × (filled ms (f []) ≡ some (f payload))
  unfolding payload_member fill
  payload_filled [] f h step = ([], refl, refl)
  payload_filled (b ∷ bs) f (inl h) step = absurd cc
  payload_filled (b ∷ bs) f (inr (j, parsed, compacted)) step =
      let source : Source = record { text = b ∷ bs; value = j } in
      (("payload", source) ∷ [], rw (compacted, parsed) refl, step source)

  pub subscriptions_filled :
      (subs : List Subscription) (f : List Subscription → Packet)
      → All (λ s. fits_int s.qos ≡ true) subs
      → ((j : Source)
          → into_subscriptions lib j.value [] ≡ some subs
          → filled (("subscriptions", j) ∷ []) (f []) ≡ some (f subs))
      → filled (subscriptions_member lib subs) (f []) ≡ some (f subs)
  unfolding subscriptions_member fill into_subscriptions
  subscriptions_filled [] f h step = refl
  subscriptions_filled (s ∷ subs) f h step =
      step (written lib (arr (items (map (subscription_json lib) (s ∷ subs)))))
        (rw (into_subscriptions, listed_items-items) (fill_items-map lib (s ∷ subs) h))

  pub metadata_filled :
      (entries : List (String × String)) (f : List (String × String) → Packet)
      → KeysDistinct entries
      → ((j : Source)
          → into_metadata j.value [] ≡ some entries
          → filled (("metadata", j) ∷ []) (f []) ≡ some (f entries))
      → filled (metadata_member lib entries) (f []) ≡ some (f entries)
  unfolding metadata_member fill into_metadata
  metadata_filled [] f h step = refl
  metadata_filled (e ∷ entries) f h step =
      step (written lib (obj (members (map (λ m. (m.0, written lib (str m.1))) (e ∷ entries)))))
        (rw (into_metadata, listed-members) (fill_map-map lib (e ∷ entries) h))

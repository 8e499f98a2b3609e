-- ===== src/Wire/Refused.antt =====
-- `DisallowUnknownFields`.
use carbmq_core.Base.{
  String, List, [], ◌∷◌, ◌++◌, Option, none, some, ◌≡◌, refl, ◌∙◌, map, ◌≢◌, All, str_eq_of_ne,
}
use carbmq_core.Base.Assoc.{Entries, lookup, keys}
use carbmq_core.Wire.Value.{Source, obj, members, listed-members, TextLayer, ◌>>=◌}
use carbmq_core.Wire.Decode.{Setter, decode, into_struct, fill, field_named, packet_fields}
use carbmq_core.Wire.Fields.{fill-append}

-- the names of the tags
abbrev packet_names : List String
packet_names =
    "type" ∷ "packetId" ∷ "clientId" ∷ "token" ∷ "topic" ∷ "qos" ∷ "payload" ∷ "timestamp"
    ∷ "subscriptions" ∷ "sessionPresent" ∷ "status" ∷ "code" ∷ "error" ∷ "metadata" ∷ []

-- no field has this name, also if case is folded
abbrev pub IsUnknown : TextLayer → String → Type 0
IsUnknown lib name = All (λ n. (n ≢ name) × (lib.fold_name n ≢ lib.fold_name name)) packet_names

module _ {V : Type 0} where
  lookup_absent :
      (name : String) (es : Entries V) → All (λ n. n ≢ name) (keys es) → lookup name es ≡ none
  unfolding lookup
  lookup_absent name [] h = refl
  lookup_absent name ((key, v) ∷ es) h = rw (str_eq_of_ne key name h.0) (lookup_absent name es h.1)

module _ {P : Type 0} (lib : TextLayer) (fold_name : String → String) where
  field_named_absent :
      (name : String) (fields : Entries (Setter P))
      → All (λ n. (n ≢ name) × (fold_name n ≢ fold_name name)) (keys fields)
      → field_named fold_name fields name ≡ none
  unfolding field_named
  field_named_absent name fields h =
      rw (field_named, lookup_absent name fields (exact fields h))
        (lookup_absent (fold_name name) _ (folded fields h))
    where
      exact :
          (fs : Entries (Setter P))
          → All (λ n. (n ≢ name) × (fold_name n ≢ fold_name name)) (keys fs)
          → All (λ n. n ≢ name) (keys fs)
      exact [] h = tt
      exact (f ∷ fs) h = (h.0.0, exact fs h.1)

      folded :
          (fs : Entries (Setter P))
          → All (λ n. (n ≢ name) × (fold_name n ≢ fold_name name)) (keys fs)
          → All (λ n. n ≢ fold_name name) (keys (map (λ e. (fold_name e.0, e.1)) fs))
      folded [] h = tt
      folded (f ∷ fs) h = (h.0.1, folded fs h.1)

  -- members with an unknown one among them
  fill_absent :
      (fields : Entries (Setter P)) (name : String) (value : Source)
      (before after : List (String × Source)) (p : P)
      → field_named fold_name fields name ≡ none
      → fill fold_name fields (before ++ (name, value) ∷ after) p ≡ none
  unfolding fill
  fill_absent fields name value before after p h =
      fill-append lib fold_name fields before ((name, value) ∷ after) p
      ∙ stops (fill fold_name fields before p)
    where
      stops : (o : Option P) → (o >>= fill fold_name fields ((name, value) ∷ after)) ≡ none
      stops none = refl
      stops (some q) = rw (fill, h)

-- An object with a member that no field of the packet has the name of, also if case is folded, is
-- refused, whatever its other members are.
pub decode_unknown :
    (lib : TextLayer) (name : String) (value : Source) (before after : List (String × Source))
    → IsUnknown lib name
    → decode lib (obj (members (before ++ (name, value) ∷ after))) ≡ none
unfolding decode into_struct
decode_unknown lib name value before after h = rw listed-members (
    fill_absent lib lib.fold_name (packet_fields lib) name value before after _
      (field_named_absent lib lib.fold_name name (packet_fields lib) h))

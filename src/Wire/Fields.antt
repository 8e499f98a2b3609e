-- ===== src/Wire/Fields.antt =====
-- What decoding makes of the members that encoding writes, one by one.
use carbmq_core.Base.{
  ℤ, pos, int_eq, String, Bool, true, false, List, [], ◌∷◌, ◌++◌, some, ◌≡◌, refl, sym, ap, ◌∙◌,
  map, inl, inr, eq_iff, arith, Bool-cases, Option-cases, All, ◌==◌,
}
use carbmq_core.Base.Assoc.{Entries, lookup}
use carbmq_core.Qtt.Packet.{Subscription}
use carbmq_core.Wire.Value.{Source, str, num, bool, TextLayer, written, ◌>>=◌, listed-members}
use carbmq_core.Wire.Encode.{text_member, int_member, bool_member, subscription_json}
use carbmq_core.Wire.Decode.{
  Setter, into_struct, fill, field_named, subscription_fields, into_text, into_int, fill_items,
  fits_int,
}

module _ {P : Type 0} (lib : TextLayer) (fold_name : String → String)
    (fields : Entries (Setter P)) where
  -- two runs of members, one behind the other
  pub fill-append :
      (xs ys : List (String × Source)) (p : P)
      → fill fold_name fields (xs ++ ys) p
        ≡ (fill fold_name fields xs p >>= fill fold_name fields ys)
  unfolding fill
  fill-append [] ys p = refl
  fill-append ((name, value) ∷ rest) ys p =
      elim (Option-cases (field_named fold_name fields name)) [
        | inl unknown ↦ rw (fill, unknown)
        | inr (set, found) ↦ elim (Option-cases (set value p)) [
          | inl bad ↦ rw (fill, found, bad)
          | inr (p', good) ↦ rw (fill, found, good) (fill-append rest ys p')
        ]
      ]

  pub fill_then :
      (xs ys : List (String × Source)) (p q : P)
      → fill fold_name fields xs p ≡ some q
      → fill fold_name fields (xs ++ ys) p ≡ fill fold_name fields ys q
  fill_then xs ys p q h = fill-append xs ys p ∙ ap (λ o. o >>= fill fold_name fields ys) h

  module _ (name : String) (set : Setter P)
      (found : field_named fold_name fields name ≡ some set) where
    pub fill_member :
        (value : Source) (p q : P)
        → set value p ≡ some q
        → fill fold_name fields ((name, value) ∷ []) p ≡ some q
    unfolding fill
    fill_member value p q h = rw (fill, found, h)

    -- a member that is left out for the empty value leaves the empty value
    pub fill-text_member :
        (f : String → P) (text : String)
        → set (written lib (str text)) (f "") ≡ some (f text)
        → fill fold_name fields (text_member lib name text) (f "") ≡ some (f text)
    unfolding text_member fill
    fill-text_member f text h = elim (Bool-cases (text == "")) [
      | inl empty ↦ rw empty (ap (λ t. some (f t)) (sym ((eq_iff text "").0 empty)))
      | inr full ↦ rw full (fill_member (written lib (str text)) (f "") (f text) h)
    ]

    pub fill-int_member :
        (f : ℤ → P) (n : ℤ)
        → set (written lib (num n)) (f (pos 0)) ≡ some (f n)
        → fill fold_name fields (int_member lib name n) (f (pos 0)) ≡ some (f n)
    unfolding int_member fill
    fill-int_member f n h = elim (Bool-cases (int_eq n (pos 0))) [
      | inl empty ↦ rw empty (ap (λ t. some (f t)) (ground (arith, empty)))
      | inr full ↦ rw full (fill_member (written lib (num n)) (f (pos 0)) (f n) h)
    ]

    pub fill-bool_member :
        (f : Bool → P) (flag : Bool)
        → set (written lib (bool true)) (f false) ≡ some (f true)
        → fill fold_name fields (bool_member lib name flag) (f false) ≡ some (f flag)
    unfolding bool_member fill
    fill-bool_member f true h = fill_member (written lib (bool true)) (f false) (f true) h
    fill-bool_member f false h = refl

into_int_fits : (n old : ℤ) → fits_int n ≡ true → into_int (num n) old ≡ some n
unfolding into_int
into_int_fits n old h = rw h

-- a subscription's two members
into_struct-subscription_json :
    (lib : TextLayer) (fold_name : String → String) (s : Subscription)
    → fits_int s.qos ≡ true
    → into_struct fold_name subscription_fields
        (subscription_json lib s)
        (record { topic = ""; qos = pos 0 })
      ≡ some s
unfolding into_struct subscription_json fill field_named lookup into_text into_int
into_struct-subscription_json lib fold_name s h =
    rw listed-members (rw (fill, into_int_fits s.qos (pos 0) h))

pub fill_items-map :
    (lib : TextLayer) (subs : List Subscription)
    → All (λ s. fits_int s.qos ≡ true) subs
    → fill_items lib (map (subscription_json lib) subs) [] ≡ some subs
unfolding fill_items
fill_items-map lib [] h = refl
fill_items-map lib (s ∷ subs) h =
    simp (into_struct-subscription_json lib lib.fold_name s h.0, fill_items-map lib subs h.1)

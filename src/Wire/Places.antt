-- ===== src/Wire/Places.antt =====
-- What a value leaves in the place that it is decoded into: ints are in range, and a map has each
-- key once.
use mathlib.Core.Option.{none-ne-some, some-injective}
use carbmq_core.Base.{
  ℤ, pos, String, true, List, [], ◌∷◌, some, ◌≡◌, refl, ◌≢◌, All, ◌==◌, str_eq-cases, Option-cases,
  inl, inr, if_both, Bool-cases, subst,
}
use carbmq_core.Base.Assoc.{Entries, insert}
use carbmq_core.Qtt.Packet.{Subscription}
use carbmq_core.Wire.Value.{
  Json, Source, null, bool, num, decimal, str, arr, obj, listed, listed_items, TextLayer,
  >>=-eq-some,
}
use carbmq_core.Wire.Decode.{
  into_struct, subscription_fields, fits_int, into_int, into_subscriptions, fill_items,
  into_metadata, fill_map, into_text,
}
use carbmq_core.Wire.Maps.{KeysDistinct}
use carbmq_core.Wire.Keeps.{Holds-always, into_struct-Keeps, kept}

-- JSON's numbers are checked, and null leaves what was there
pub into_int-fits :
    (j : Json) (old n : ℤ) → fits_int old ≡ true → into_int j old ≡ some n → fits_int n ≡ true
unfolding into_int
into_int-fits null old n h e = subst (λ m. fits_int m ≡ true) (some-injective _ _ e) h
into_int-fits (num m) old n h e = elim (Bool-cases (fits_int m)) [
  | inl fits ↦ subst (λ k. fits_int k ≡ true) (some-injective _ _ (rw (into_int, fits) at e)) fits
  | inr large ↦ absurd (none-ne-some _ (rw (into_int, large) at e))
]
into_int-fits (bool b) old n h e = absurd (none-ne-some _ e)
into_int-fits (decimal d) old n h e = absurd (none-ne-some _ e)
into_int-fits (str s) old n h e = absurd (none-ne-some _ e)
into_int-fits (arr js) old n h e = absurd (none-ne-some _ e)
into_int-fits (obj ms) old n h e = absurd (none-ne-some _ e)

subscription-fits :
    (fold_name : String → String) (j : Json) (s t : Subscription)
    → fits_int s.qos ≡ true
    → into_struct fold_name subscription_fields j s ≡ some t
    → fits_int t.qos ≡ true
subscription-fits fold_name j s t h e =
    into_struct-Keeps (λ _. Unit {0}) (λ s. fits_int s.qos ≡ true) fold_name subscription_fields
      (
        λ j p q v h e.
            kept (λ _. Unit {0}) (λ s. fits_int s.qos ≡ true) fold_name (into_text j.value p.topic)
              _ q (λ w _. h) e,
        (
          λ j p q v h e.
              kept (λ _. Unit {0}) (λ s. fits_int s.qos ≡ true) fold_name (into_int j.value p.qos) _
                q (λ w k. into_int-fits j.value p.qos w h k) e,
          tt,
        ),
      )
      j s t (Holds-always (λ _. Unit {0}) (λ _. tt) j) h e

abbrev AllFit : List Subscription → Type 0
AllFit = All (λ s. fits_int s.qos ≡ true)

fill_items-AllFit :
    (lib : TextLayer) (js : List Json) (old new : List Subscription)
    → AllFit old
    → fill_items lib js old ≡ some new
    → AllFit new
unfolding fill_items
fill_items-AllFit lib [] old new h e = subst AllFit (some-injective _ _ e) tt
fill_items-AllFit lib (j ∷ js) [] new h e =
    let (s, made, k) =
      >>=-eq-some
        (into_struct lib.fold_name subscription_fields j (record { topic = ""; qos = pos 0 })) _ new
        e in
    let (rest, filled, same) = >>=-eq-some (fill_items lib js []) (λ rest. some (s ∷ rest)) new k in
    subst AllFit (some-injective _ _ same)
      (subscription-fits lib.fold_name j _ s refl made, fill_items-AllFit lib js [] rest h filled)
fill_items-AllFit lib (j ∷ js) (o ∷ old) new h e =
    let (s, made, k) = >>=-eq-some (into_struct lib.fold_name subscription_fields j o) _ new e in
    let (rest, filled, same) =
      >>=-eq-some (fill_items lib js old) (λ rest. some (s ∷ rest)) new k in
    subst AllFit (some-injective _ _ same)
      (subscription-fits lib.fold_name j o s h.0 made, fill_items-AllFit lib js old rest h.1 filled)

insert-apart :
    (other key value : String) (m : Entries String)
    → other ≢ key
    → All (λ e. other ≢ e.0) m
    → All (λ e. other ≢ e.0) (insert key value m)
unfolding insert
insert-apart other key value [] h k = (h, tt)
insert-apart other key value ((a, b) ∷ m) h k =
    if_both (All (λ e. other ≢ e.0)) (a == key) (h, k.1) (k.0, insert-apart other key value m h k.1)

insert-KeysDistinct :
    (key value : String) (m : Entries String) → KeysDistinct m → KeysDistinct (insert key value m)
unfolding insert
insert-KeysDistinct key value [] h = (tt, tt)
insert-KeysDistinct key value ((a, b) ∷ m) h = elim (str_eq-cases a key) [
  | inl (t, same) ↦ rw (insert, t) (subst (λ k. All (λ e. k ≢ e.0) m) same h.0, h.1)
  | inr (t, other) ↦
      rw (insert, t) (insert-apart a key value m other h.0, insert-KeysDistinct key value m h.1)
]

fill_map-KeysDistinct :
    (ms : List (String × Source)) (old new : Entries String)
    → KeysDistinct old
    → fill_map ms old ≡ some new
    → KeysDistinct new
unfolding fill_map
fill_map-KeysDistinct [] old new h e = subst KeysDistinct (some-injective _ _ e) h
fill_map-KeysDistinct ((key, value) ∷ ms) old new h e =
    elim (Option-cases (into_text value.value "")) [
      | inl bad ↦ absurd (none-ne-some _ (rw (fill_map, bad) at e))
      | inr (v, good) ↦
          fill_map-KeysDistinct ms (insert key v old) new (insert-KeysDistinct key v old h)
            (rw (fill_map, good) at e)
    ]

pub into_subscriptions-AllFit :
    (lib : TextLayer) (j : Json) (old new : List Subscription)
    → AllFit old
    → into_subscriptions lib j old ≡ some new
    → AllFit new
unfolding into_subscriptions
into_subscriptions-AllFit lib null old new h e = subst AllFit (some-injective _ _ e) tt
into_subscriptions-AllFit lib (arr js) old new h e =
    fill_items-AllFit lib (listed_items js) old new h e
into_subscriptions-AllFit lib (bool b) old new h e = absurd (none-ne-some _ e)
into_subscriptions-AllFit lib (num n) old new h e = absurd (none-ne-some _ e)
into_subscriptions-AllFit lib (decimal d) old new h e = absurd (none-ne-some _ e)
into_subscriptions-AllFit lib (str s) old new h e = absurd (none-ne-some _ e)
into_subscriptions-AllFit lib (obj ms) old new h e = absurd (none-ne-some _ e)

pub into_metadata-KeysDistinct :
    (j : Json) (old new : Entries String)
    → KeysDistinct old
    → into_metadata j old ≡ some new
    → KeysDistinct new
unfolding into_metadata
into_metadata-KeysDistinct null old new h e = subst KeysDistinct (some-injective _ _ e) tt
into_metadata-KeysDistinct (obj ms) old new h e = fill_map-KeysDistinct (listed ms) old new h e
into_metadata-KeysDistinct (bool b) old new h e = absurd (none-ne-some _ e)
into_metadata-KeysDistinct (num n) old new h e = absurd (none-ne-some _ e)
into_metadata-KeysDistinct (decimal d) old new h e = absurd (none-ne-some _ e)
into_metadata-KeysDistinct (str s) old new h e = absurd (none-ne-some _ e)
into_metadata-KeysDistinct (arr js) old new h e = absurd (none-ne-some _ e)

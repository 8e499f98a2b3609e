-- ===== src/Wire/Keeps.antt =====
-- What every setter of a struct keeps, the decoding of a value into the struct keeps.
use mathlib.Core.Option.{none-ne-some, some-injective}
use carbmq_core.Base.{
  String, List, [], ◌∷◌, Option, none, some, ◌≡◌, refl, map, All, ◌==◌, Option-cases, inl, inr,
  Bool-cases, subst,
}
use carbmq_core.Base.Assoc.{Entries, lookup}
use carbmq_core.Wire.Value.{Json, Source, null, bool, num, decimal, str, arr, obj, listed, ◌>>=◌}
use carbmq_core.Wire.Decode.{Setter, into_struct, fill, field_named}

-- every member of an object has the property
abbrev pub Holds : (Source → Type 0) → Json → Type 0
Holds V (obj ms) = All (λ (m : String × Source). V m.1) (listed ms)
Holds V _ = Unit

module _ (V : Source → Type 0) (always : (j : Source) → V j) where
  pub Holds-always : (j : Json) → Holds V j
  Holds-always null = tt
  Holds-always (bool b) = tt
  Holds-always (num n) = tt
  Holds-always (decimal d) = tt
  Holds-always (str s) = tt
  Holds-always (arr js) = tt
  Holds-always (obj ms) = each (listed ms)
    where
      each : (l : List (String × Source)) → All (λ (m : String × Source). V m.1) l
      each [] = tt
      each (m ∷ l) = (always m.1, each l)

module _ {P : Type 0} (V : Source → Type 0) (Q : P → Type 0) (fold_name : String → String) where
  -- a setter that keeps `Q`, for values with the property `V`
  abbrev pub Keeps : Setter P → Type 0
  Keeps set = (j : Source) (p q : P) → V j → Q p → set j p ≡ some q → Q q

  lookup-Keeps :
      (fields : Entries (Setter P)) (name : String) (set : Setter P)
      → All (λ e. Keeps e.1) fields
      → lookup name fields ≡ some set
      → Keeps set
  unfolding lookup
  lookup-Keeps [] name set h found = absurd cc
  lookup-Keeps ((key, s) ∷ fields) name set h found = elim (Bool-cases (key == name)) [
    | inl same ↦ subst Keeps (some-injective _ _ (rw (lookup, same) at found)) h.0
    | inr other ↦ lookup-Keeps fields name set h.1 (rw (lookup, other) at found)
  ]

  All-fold_keys :
      (fields : Entries (Setter P))
      → All (λ e. Keeps e.1) fields
      → All (λ (e : String × Setter P). Keeps e.1) (map (λ e. (fold_name e.0, e.1)) fields)
  All-fold_keys [] h = tt
  All-fold_keys (f ∷ fields) h = (h.0, All-fold_keys fields h.1)

  module _ (fields : Entries (Setter P)) (keep : All (λ e. Keeps e.1) fields) where
    field_named-Keeps :
        (name : String) (set : Setter P) → field_named fold_name fields name ≡ some set → Keeps set
    unfolding field_named
    field_named-Keeps name set found = elim (Option-cases (lookup name fields)) [
      | inl other ↦
          lookup-Keeps _ (fold_name name) set (All-fold_keys fields keep)
            (rw (field_named, other) at found)
      | inr (s, exact) ↦
          subst Keeps (some-injective _ _ (rw (field_named, exact) at found))
            (lookup-Keeps fields name s keep exact)
    ]

    fill-Keeps :
        (ms : List (String × Source)) (p q : P)
        → All (λ (m : String × Source). V m.1) ms
        → Q p
        → fill fold_name fields ms p ≡ some q
        → Q q
    unfolding fill
    fill-Keeps [] p q v h e = subst Q (some-injective _ _ e) h
    fill-Keeps ((name, value) ∷ ms) p q v h e =
        elim (Option-cases (field_named fold_name fields name)) [
          | inl unknown ↦ absurd (none-ne-some _ (rw (fill, unknown) at e))
          | inr (set, found) ↦ elim (Option-cases (set value p)) [
            | inl bad ↦ absurd (none-ne-some _ (rw (fill, found, bad) at e))
            | inr (p', good) ↦
                fill-Keeps ms p' q v.1 (field_named-Keeps name set found value p p' v.0 h good)
                  (rw (fill, found, good) at e)
          ]
        ]

    pub into_struct-Keeps :
        (j : Json) (p q : P) → Holds V j → Q p → into_struct fold_name fields j p ≡ some q → Q q
    unfolding into_struct
    into_struct-Keeps null p q v h e = subst Q (some-injective _ _ e) h
    into_struct-Keeps (bool b) p q v h e = absurd (none-ne-some _ e)
    into_struct-Keeps (num n) p q v h e = absurd (none-ne-some _ e)
    into_struct-Keeps (decimal d) p q v h e = absurd (none-ne-some _ e)
    into_struct-Keeps (str s) p q v h e = absurd (none-ne-some _ e)
    into_struct-Keeps (arr js) p q v h e = absurd (none-ne-some _ e)
    into_struct-Keeps (obj ms) p q v h e = fill-Keeps (listed ms) p q v h e

  pub kept :
      {A : Type 0} (o : Option A) (f : A → P) (q : P)
      → ((v : A) → o ≡ some v → Q (f v))
      → (o >>= λ v. some (f v)) ≡ some q
      → Q q
  kept none f q h e = absurd (none-ne-some _ e)
  kept (some v) f q h e = subst Q (some-injective _ _ e) (h v refl)

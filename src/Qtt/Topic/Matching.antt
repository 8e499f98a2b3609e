-- ===== src/Qtt/Topic/Matching.antt =====
-- `MatchTopic` against the meaning of filters: the loop over an index decides a relation between
-- the parts of a filter and the parts of a topic.
use carbmq_core.Base.{
  ℕ, zero, suc, ◌+◌, ◌≤◌, String, Bool, true, false, List, [], ◌∷◌, none, some, ◌==◌, length,
  get_elem?, drop, if◌then◌else◌, ◌≡◌, refl, ◌↔◌, arith, eq_iff, ◌≢◌, subst, inl, inr, ap,
  str_eq-cases, eq_refl, sym, ◌∙◌,
}
use native.Mathlib.Numerals.{add-one}
use carbmq_core.Base.Text.{split}
use carbmq_core.Qtt.Topic.{match_from, match_topic}

-- The filter's parts cover the topic's: `#` takes the rest, also an empty one, `+` takes one part,
-- and any other part takes itself.
pub data Matches : List String → List String → Type 0 where
  done : Matches [] []
  rest : {fs ts : List String} → Matches ("#" ∷ fs) ts
  any : {fs ts : List String} {t : String} → Matches fs ts → Matches ("+" ∷ fs) (t ∷ ts)
  same : {fs ts : List String} {t : String} → Matches fs ts → Matches (t ∷ fs) (t ∷ ts)

-- The loop without its index.
abbrev match_parts : List String → List String → Bool
match_parts [] [] = true
match_parts [] (t ∷ ts) = false
match_parts (f ∷ fs) [] = f == "#"
match_parts (f ∷ fs) (t ∷ ts) =
    let continue = match_parts fs ts in
    if f == "#" then true else if f == "+" then continue else if f == t then continue else false

drop-nil : (xs : List String) (i : ℕ) → drop i xs ≡ [] → (get_elem? xs i ≡ none) × (length xs ≤ i)
drop-nil [] zero h = (refl, omega arith)
drop-nil [] (suc i) h = (refl, omega arith)
drop-nil (x ∷ xs) zero h = cc
drop-nil (x ∷ xs) (suc i) h = ground (arith, drop-nil xs i h)

drop-cons :
    (xs : List String) (i : ℕ) {t : String} {ts : List String}
    → drop i xs ≡ t ∷ ts
    → (get_elem? xs i ≡ some t) × (drop (suc i) xs ≡ ts) × (suc i ≤ length xs)
drop-cons [] zero h = cc
drop-cons [] (suc i) h = cc
drop-cons (x ∷ xs) zero h = ground arith
drop-cons (x ∷ xs) (suc i) h = ground (arith, drop-cons xs i h)

-- The index only walks both lists at once.
match_from-eq-match_parts :
    (filter_parts topic_parts : List String) (idx : ℕ) (fs ts : List String)
    → length filter_parts ≡ idx + length fs
    → idx ≤ length topic_parts
    → drop idx topic_parts ≡ ts
    → match_from filter_parts topic_parts idx fs ≡ match_parts fs ts
unfolding match_from
match_from-eq-match_parts fp tp idx [] [] n b e = ground (arith, drop-nil tp idx e)
match_from-eq-match_parts fp tp idx [] (t ∷ ts) n b e = ground (arith, drop-cons tp idx e)
match_from-eq-match_parts fp tp idx (f ∷ fs) [] n b e = rw (match_from, (drop-nil tp idx e).0) refl
match_from-eq-match_parts fp tp idx (f ∷ fs) (t ∷ ts) n b e =
    let (found, later, fits) = drop-cons tp idx e in
    rw (match_from, found)
      (rw
        (match_from-eq-match_parts fp tp (idx + 1) fs ts (omega arith) (omega arith)
          (rw add-one later))
        refl)

Matches-hash : {f : String} {fs ts : List String} → f ≡ "#" → Matches (f ∷ fs) ts
Matches-hash {fs} {ts} e = rw e (rest {fs = fs} {ts = ts})

Matches-plus :
    {f t : String} {fs ts : List String} → f ≡ "+" → Matches fs ts → Matches (f ∷ fs) (t ∷ ts)
Matches-plus {t} e m = rw e (any {t = t} m)

Matches-part :
    {f t : String} {fs ts : List String} → f ≡ t → Matches fs ts → Matches (f ∷ fs) (t ∷ ts)
Matches-part e m = rw e (same m)

match_parts_sound : (fs ts : List String) → match_parts fs ts ≡ true → Matches fs ts
match_parts_sound [] [] h = done
match_parts_sound [] (t ∷ ts) h = cc
match_parts_sound (f ∷ fs) [] h = Matches-hash ((eq_iff f "#").0 h)
match_parts_sound (f ∷ fs) (t ∷ ts) h = elim (str_eq-cases f "#") [
  | inl (_, e) ↦ Matches-hash e
  | inr (no_hash, _) ↦ elim (str_eq-cases f "+") [
    | inl (_, e) ↦ Matches-plus e (match_parts_sound fs ts (ground arith))
    | inr (no_plus, _) ↦ elim (str_eq-cases f t) [
      | inl (_, e) ↦ Matches-part e (match_parts_sound fs ts (ground arith))
      | inr (other, _) ↦ absurd (ground arith)
    ]
  ]
]

match_parts_complete : {fs ts : List String} → Matches fs ts → match_parts fs ts ≡ true
match_parts_complete done = refl
match_parts_complete (rest {fs = fs} {ts = []}) = refl
match_parts_complete (rest {fs = fs} {ts = t ∷ ts}) = refl
match_parts_complete (any m) = match_parts_complete m
match_parts_complete (same {t = t} m) = ground (arith, eq_refl t, match_parts_complete m)

-- `MatchTopic` answers true exactly when the parts of the filter match the parts of the topic.
pub match_topic_iff :
    (filter topic : String)
    → (match_topic filter topic ≡ true) ↔ Matches (split filter) (split topic)
unfolding match_topic
match_topic_iff filter topic =
    let walked =
      match_from-eq-match_parts (split filter) (split topic) 0 (split filter) (split topic)
        (omega arith) (omega arith) refl in
    (
      λ h. match_parts_sound (split filter) (split topic) (sym walked ∙ h),
      λ m. walked ∙ match_parts_complete m,
    )

-- A part that is no wildcard matches itself alone.
pub Matches-part_inv :
    {gs ts : List String}
    → Matches gs ts
    → (f : String) (fs : List String) → gs ≡ f ∷ fs
    → f ≢ "#"
    → f ≢ "+"
    → (us : List String) × (ts ≡ f ∷ us) × Matches fs us
Matches-part_inv done f fs e h p = cc
Matches-part_inv rest f fs e h p = absurd (h (cc))
Matches-part_inv (any m) f fs e h p = absurd (p (cc))
Matches-part_inv (same {fs = hs} {ts = us} {t = t} m) f fs e h p =
    let eqs : (t ≡ f) × (hs ≡ fs) = (ground arith, ground arith) in
    (us, ap (λ x. x ∷ us) eqs.0, subst (λ x. Matches x us) eqs.1 m)

pub Matches-nil_inv : {gs ts : List String} → Matches gs ts → gs ≡ [] → ts ≡ []
Matches-nil_inv done e = refl
Matches-nil_inv rest e = cc
Matches-nil_inv (any m) e = cc
Matches-nil_inv (same m) e = cc

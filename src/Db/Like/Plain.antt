-- ===== src/Db/Like/Plain.antt =====
-- Patterns without a special character but a `%` at their end.
use Prim.Native.Char.{code, Char}
use text.Mathlib.TextEquality.{Char-path}
use text.Mathlib.TextLemmas.{nil-append, cons-append}
use carbmq_core.Base.{
  String, Bool, not, ◌&&◌, true, false, ◌∷◌, ◌≡◌, ◌≢◌, sym, ◌∙◌, arith, nat_eq, &&-split,
}
use carbmq_core.Base.Text.{◌<>◌}
use carbmq_core.Db.Like.{just, items, like_items, like}

-- no character of the text means anything else in a pattern
abbrev pub IsPlain : String → Type 0
IsPlain String.[] = Unit
IsPlain (String.◌∷◌ c s) = (code c ≢ b'%') × (code c ≢ b'_') × (code c ≢ b'\\') × IsPlain s

pub IsPlain-append : (s t : String) → IsPlain s → IsPlain t → IsPlain (s <> t)
IsPlain-append String.[] t h k = rw (nil-append t) k
IsPlain-append (String.◌∷◌ c s) t h k =
    rw (cons-append c s t) (h.0, h.1, h.2, IsPlain-append s t h.3 k)

items-plain :
    (c : Char) (p : String)
    → code c ≢ b'%'
    → code c ≢ b'_'
    → code c ≢ b'\\'
    → items false (String.◌∷◌ c p) ≡ just (code c) ∷ items false p
unfolding items
items-plain c p h k l = ground arith

-- the first character of the pattern and of the text
like_first :
    (c : Char) (p s : String)
    → ((t : String)
        → like_items (items false (p <> "%")) t ≡ true
        → (rest : String) × (t ≡ p <> rest))
    → like_items (just (code c) ∷ items false (p <> "%")) s ≡ true
    → (rest : String) × (s ≡ String.◌∷◌ c p <> rest)
unfolding like_items
like_first c p String.[] later k = absurd cc
like_first c p (String.◌∷◌ d s) later k =
    let (same, more) =
      &&-split (nat_eq (code d) (code c)) (like_items (items false (p <> "%")) s) k in
    let (rest, equal) = later s more in
    let char : d ≡ c = Char-path d c (ground (arith, same)) in
    (rest, (λ i. String.◌∷◌ (char i) (equal i)) ∙ sym (cons-append c p rest))

-- A text that is like a plain text with a `%` behind it begins with that text.
pub like_prefix :
    (p s : String) → IsPlain p → like (p <> "%") s ≡ true → (rest : String) × (s ≡ p <> rest)
unfolding like
like_prefix String.[] s h k = (s, sym (nil-append s))
like_prefix (String.◌∷◌ c p) s h k =
    like_first c p s (λ t. like_prefix p t h.3)
      (rw (cons-append c p "%", items-plain c (p <> "%") h.0 h.1 h.2) at k)

-- the test of a text
abbrev is_plain : String → Bool
is_plain String.[] = true
is_plain (String.◌∷◌ c s) =
    not (nat_eq (code c) b'%')
    && not (nat_eq (code c) b'_')
    && not (nat_eq (code c) b'\\')
    && is_plain s

pub IsPlain-of_test : (s : String) → is_plain s ≡ true → IsPlain s
IsPlain-of_test String.[] h = tt
IsPlain-of_test (String.◌∷◌ c s) h =
    let (special, rest) =
      &&-split
        (not (nat_eq (code c) b'%') && not (nat_eq (code c) b'_') && not (nat_eq (code c) b'\\'))
        (is_plain s) h in
    (
      ground (arith, special),
      ground (arith, special),
      ground (arith, special),
      IsPlain-of_test s rest,
    )

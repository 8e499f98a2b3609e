-- ===== src/Base/Text/Split.antt =====
-- Laws of splitting at '/' and joining again, as `strings.Split` documents them.
use Prim.Native.Char.{Char, code}
use Prim.Native.String.{String}
use mathlib.Core.Path.{◌≡◌, refl, sym, ap, ◌∙◌}
use mathlib.Core.Logic.{◌≢◌}
use mathlib.Core.List.{List, [], ◌∷◌}
use native.Mathlib.Omega.{arith}
use text.Mathlib.TextEquality.{Char-path}
use text.Mathlib.TextLemmas.{nil-append, cons-append}
use carbmq_core.Base.Lists.{All}
use carbmq_core.Base.Text.{split, join, grow, NoSlash, ◌<>◌}

join-grow : (c : Char) (ps : List String) → ps ≢ [] → join (grow c ps) ≡ String.◌∷◌ c (join ps)
unfolding join
join-grow c [] h = absurd (h refl)
join-grow c (p ∷ []) h = refl
join-grow c (p ∷ q ∷ ps) h = cons-append c p _

join-slash : (ps : List String) → ps ≢ [] → join ("" ∷ ps) ≡ "/" <> join ps
unfolding join
join-slash [] h = absurd (h refl)
join-slash (p ∷ ps) h = nil-append _

grow-ne-nil : (c : Char) (ps : List String) → grow c ps ≢ []
grow-ne-nil c [] = cc
grow-ne-nil c (p ∷ ps) = cc

split-ne-nil : (s : String) → split s ≢ []
unfolding split
split-ne-nil String.[] = cc
split-ne-nil (String.◌∷◌ c s) = ground (arith, grow-ne-nil c (split s))

abbrev slash : Char
slash = "/"

slash_append : (s : String) → "/" <> s ≡ String.◌∷◌ slash s
slash_append s = cons-append slash "" s ∙ ap (String.◌∷◌ slash) (nil-append s)

slash-cons : (c : Char) (s : String) → code c ≡ b'/' → "/" <> s ≡ String.◌∷◌ c s
slash-cons c s h = slash_append s ∙ ap (λ d. String.◌∷◌ d s) (Char-path slash c (sym h))

-- Joining the parts gives the text back.
pub join-split : (s : String) → join (split s) ≡ s
unfolding split
join-split String.[] = unfold join in refl
join-split (String.◌∷◌ c s) = ground (
  arith,
  join-split s,
  split-ne-nil s,
  join-grow c (split s),
  join-slash (split s),
  slash-cons c s,
)

grow-NoSlash :
    (c : Char) (ps : List String) → code c ≢ b'/' → All NoSlash ps → All NoSlash (grow c ps)
grow-NoSlash c [] h a = ((h, tt), tt)
grow-NoSlash c (p ∷ ps) h (a, more) = ((h, a), more)

-- No part holds a slash.
split-NoSlash : (s : String) → All NoSlash (split s)
unfolding split
split-NoSlash String.[] = (tt, tt)
split-NoSlash (String.◌∷◌ c s) = ground (arith, split-NoSlash s, grow-NoSlash c (split s))

-- A text without a slash is one part.
split_of_NoSlash : (s : String) → NoSlash s → split s ≡ s ∷ []
unfolding split
split_of_NoSlash String.[] h = refl
split_of_NoSlash (String.◌∷◌ c s) h = rw (split_of_NoSlash s h.1) (ground arith)

-- The first part ends at the first slash.
pub split-append_slash : (p s : String) → NoSlash p → split (p <> "/" <> s) ≡ p ∷ split s
unfolding split
split-append_slash String.[] s h = rw (nil-append ("/" <> s), slash_append s) refl
split-append_slash (String.◌∷◌ c p) s h =
    rw (cons-append c p ("/" <> s), split-append_slash p s h.1) (ground arith)

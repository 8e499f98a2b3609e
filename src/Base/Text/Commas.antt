-- ===== src/Base/Text/Commas.antt =====
-- `strings.Split` at ','.
use Prim.Native.Char.{Char, code}
use Prim.Native.String.{String}
use mathlib.Core.Path.{◌≡◌, refl, ap, ◌∙◌}
use mathlib.Core.Logic.{◌≢◌}
use mathlib.Core.List.{List, [], ◌∷◌}
use native.Mathlib.Omega.{arith}
use text.Mathlib.TextLemmas.{nil-append, cons-append}
use carbmq_core.Base.Tests.{nat_eq, if◌then◌else◌}
use carbmq_core.Base.Text.{grow, ◌<>◌}

-- `strings.Split(s, ",")`
unfoldable pub split_commas : String → List String
split_commas String.[] = "" ∷ []
split_commas (String.◌∷◌ c s) =
    let rest = split_commas s in if nat_eq (code c) b',' then "" ∷ rest else grow c rest

abbrev pub NoComma : String → Type 0
NoComma String.[] = Unit
NoComma (String.◌∷◌ c s) = (code c ≢ b',') × NoComma s

-- A text without a comma is one part.
pub split_of_NoComma : (s : String) → NoComma s → split_commas s ≡ s ∷ []
unfolding split_commas
split_of_NoComma String.[] h = refl
split_of_NoComma (String.◌∷◌ c s) h = rw (split_of_NoComma s h.1) (ground arith)

abbrev comma : Char
comma = ","

comma_append : (s : String) → "," <> s ≡ String.◌∷◌ comma s
comma_append s = cons-append comma "" s ∙ ap (String.◌∷◌ comma) (nil-append s)

-- The first part ends at the first comma.
pub split-append_comma :
    (p s : String) → NoComma p → split_commas (p <> "," <> s) ≡ p ∷ split_commas s
unfolding split_commas
split-append_comma String.[] s h = rw (nil-append ("," <> s), comma_append s) refl
split-append_comma (String.◌∷◌ c p) s h =
    rw (cons-append c p ("," <> s), split-append_comma p s h.1) (ground arith)

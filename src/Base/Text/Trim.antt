-- ===== src/Base/Text/Trim.antt =====
-- `strings.TrimSpace`, on texts.
use Prim.Native.Char.{code}
use Prim.Native.Nat.{ℕ}
use Prim.Native.String.{String}
use mathlib.Core.Path.{◌≡◌, refl, ap, ◌∙◌}
use mathlib.Core.Logic.{inl, inr}
use mathlib.Core.Bool.{Bool, false, ◌||◌, ◌&&◌}
use text.Mathlib.Text.{◌==◌}
use carbmq_core.Base.Tests.{nat_eq, leb, if◌then◌else◌, Bool-cases}

-- `unicode.IsSpace`, on a code point
unfoldable pub is_space : ℕ → Bool
is_space n =
    leb 9 n && leb n 13
    || nat_eq n 32
    || nat_eq n 0x85
    || nat_eq n 0xA0
    || nat_eq n 0x1680
    || leb 0x2000 n && leb n 0x200A
    || nat_eq n 0x2028
    || nat_eq n 0x2029
    || nat_eq n 0x202F
    || nat_eq n 0x205F
    || nat_eq n 0x3000

unfoldable pub trim_left : String → String
trim_left String.[] = ""
trim_left (String.◌∷◌ c s) =
    let rest = trim_left s in if is_space (code c) then rest else String.◌∷◌ c s

unfoldable pub trim_right : String → String
trim_right String.[] = ""
trim_right (String.◌∷◌ c s) =
    let rest = trim_right s in if is_space (code c) && rest == "" then "" else String.◌∷◌ c rest

-- `strings.TrimSpace`
unfoldable pub trim_space : String → String
trim_space s = trim_right (trim_left s)

starts_with_space : String → Bool
starts_with_space String.[] = false
starts_with_space (String.◌∷◌ c s) = is_space (code c)

trim_left_lem : (s : String) → starts_with_space (trim_left s) ≡ false
unfolding trim_left starts_with_space
trim_left_lem String.[] = refl
trim_left_lem (String.◌∷◌ c s) = elim (Bool-cases (is_space (code c))) [
  | inl space ↦ rw (trim_left, space) (trim_left_lem s)
  | inr other ↦ rw (trim_left, other) other
]

trim_left_of_trimmed : (s : String) → starts_with_space s ≡ false → trim_left s ≡ s
unfolding trim_left starts_with_space
trim_left_of_trimmed String.[] h = refl
trim_left_of_trimmed (String.◌∷◌ c s) h = rw h refl

trim_right_keeps_start :
    (s : String) → starts_with_space s ≡ false → starts_with_space (trim_right s) ≡ false
unfolding trim_right starts_with_space
trim_right_keeps_start String.[] h = refl
trim_right_keeps_start (String.◌∷◌ c s) h = rw (trim_right, h) h

trim_right_idem : (s : String) → trim_right (trim_right s) ≡ trim_right s
unfolding trim_right
trim_right_idem String.[] = refl
trim_right_idem (String.◌∷◌ c s) = elim (Bool-cases (is_space (code c) && trim_right s == "")) [
  | inl gone ↦ rw (trim_right, gone) refl
  | inr stays ↦ rw (trim_right, stays, trim_right_idem s, stays) refl
]

-- A trimmed text stays as it is.
pub trim_space_idem : (s : String) → trim_space (trim_space s) ≡ trim_space s
unfolding trim_space
trim_space_idem s =
    let starts = trim_right_keeps_start (trim_left s) (trim_left_lem s) in
    ap trim_right (trim_left_of_trimmed (trim_right (trim_left s)) starts)
    ∙ trim_right_idem (trim_left s)

-- ===== src/Api/Numbers.antt =====
-- `strconv.Atoi`, and `parseLimit` of api/handlers/http.go.
pub mod Printed
use Prim.Native.Char.{code}
use carbmq_core.Base.{
  ℕ, zero, suc, ◌+◌, ◌-◌, ◌*◌, ℤ, pos, negsuc, leb, leb_ℤ, nat_eq, String, true, ◌&&◌, Option, none,
  some, if◌then◌else◌, ◌==◌, ◌≡◌, arith, Option-cases, inl, inr, ltb_ℤ,
}

-- the digits of a number, behind those that made `n`
unfoldable pub digits : ℕ → String → Option ℕ
digits n String.[] = some n
digits n (String.◌∷◌ c s) =
    let rest = digits (n * 10 + (code c - b'0')) s in
    if leb b'0' (code c) && leb (code c) b'9' then rest else none

-- the number of a text of digits, which are at least one
unfoldable pub magnitude : String → Option ℕ
magnitude String.[] = none
magnitude (String.◌∷◌ c s) = digits 0 (String.◌∷◌ c s)

unfoldable pub negated : ℕ → ℤ
negated zero = pos 0
negated (suc n) = negsuc n

-- A number that fits into 64 bits with a sign, or an error.
unfoldable pub atoi : String → Option ℤ
unfolding magnitude negated
atoi String.[] = none
atoi (String.◌∷◌ c s) =
    if nat_eq (code c) b'-'
    then elim (magnitude s) [
      | none ↦ none
      | some n ↦ if leb n 9_223_372_036_854_775_808 then some (negated n) else none
    ]
    else elim (magnitude (if nat_eq (code c) b'+' then s else String.◌∷◌ c s)) [
      | none ↦ none
      | some n ↦ if leb n 9_223_372_036_854_775_807 then some (pos n) else none
    ]

-- `parseLimit`
unfoldable pub parse_limit : String → ℤ → ℤ
parse_limit value fallback = if value == "" then fallback else elim (atoi value) [
  | none ↦ fallback
  | some limit ↦ if leb_ℤ limit (pos 0) then fallback else limit
]

-- A limit is positive, whatever the text, if the fallback is.
pub parse_limit_positive :
    (value : String) (fallback : ℤ)
    → ltb_ℤ (pos 0) fallback ≡ true
    → ltb_ℤ (pos 0) (parse_limit value fallback) ≡ true
unfolding parse_limit
parse_limit_positive value fallback h = elim (Option-cases (atoi value)) [
  | inl bad ↦ ground (arith, bad, h)
  | inr (limit, good) ↦ ground (arith, good, h)
]

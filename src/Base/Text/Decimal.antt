-- ===== src/Base/Text/Decimal.antt =====
-- The decimal texts of natural numbers, as `strconv.Itoa` and the verb `%03d` write them.
use Prim.Native.Nat.{ℕ, zero, suc, ◌+◌, ◌/◌, ◌%◌, ◌<◌}
use Prim.Native.Char.{Char, code}
use Prim.Native.String.{String}
use mathlib.Core.Path.{◌≡◌, refl}
use native.Mathlib.Omega.{arith}
use carbmq_core.Base.Tests.{ltb, nat_eq, if◌then◌else◌}
use carbmq_core.Base.Text.{◌<>◌}

-- the character of a digit
unfoldable pub digit : ℕ → Char
digit zero = "0"
digit (suc zero) = "1"
digit (suc (suc zero)) = "2"
digit (suc (suc (suc zero))) = "3"
digit (suc (suc (suc (suc zero)))) = "4"
digit (suc (suc (suc (suc (suc zero))))) = "5"
digit (suc (suc (suc (suc (suc (suc zero)))))) = "6"
digit (suc (suc (suc (suc (suc (suc (suc zero))))))) = "7"
digit (suc (suc (suc (suc (suc (suc (suc (suc zero)))))))) = "8"
digit _ = "9"

pub code-digit : (d : ℕ) → d < 10 → code (digit d) ≡ b'0' + d
unfolding digit
code-digit zero h = refl
code-digit (suc zero) h = refl
code-digit (suc (suc zero)) h = refl
code-digit (suc (suc (suc zero))) h = refl
code-digit (suc (suc (suc (suc zero)))) h = refl
code-digit (suc (suc (suc (suc (suc zero))))) h = refl
code-digit (suc (suc (suc (suc (suc (suc zero)))))) h = refl
code-digit (suc (suc (suc (suc (suc (suc (suc zero))))))) h = refl
code-digit (suc (suc (suc (suc (suc (suc (suc (suc zero)))))))) h = refl
code-digit (suc (suc (suc (suc (suc (suc (suc (suc (suc zero))))))))) h = refl
code-digit (suc (suc (suc (suc (suc (suc (suc (suc (suc (suc n)))))))))) h = absurd (omega arith)

-- the digits of `n` in front of `out`; `n` rounds are more than it has digits
unfoldable pub emit : (fuel n : ℕ) → String → String
unfolding digit
emit zero n out = out
emit (suc fuel) n out =
    let rest = emit fuel (n / 10) (String.◌∷◌ (digit (n % 10)) out) in
    if nat_eq n 0 then out else rest

unfoldable pub decimal : ℕ → String
unfolding emit
decimal n = if nat_eq n 0 then "0" else emit n n ""

-- `%03d`
unfoldable pub padded : ℕ → String
unfolding decimal
padded n = if ltb n 10 then "00" <> decimal n else if ltb n 100 then "0" <> decimal n else decimal n

padded_runs : (padded 7 ≡ "007") × (padded 42 ≡ "042") × (padded 1250 ≡ "1250")
unfolding padded
padded_runs = (refl, refl, refl)

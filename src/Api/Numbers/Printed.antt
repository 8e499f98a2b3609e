-- ===== src/Api/Numbers/Printed.antt =====
-- The decimal text of a number is read back.
use Prim.Native.Nat.{◌/◌, ◌%◌}
use mathlib.Core.Option.{some-injective}
use text.Mathlib.TextLemmas.{cons-append, nil-append}
use carbmq_core.Base.{
  ℕ, zero, suc, ◌+◌, ◌-◌, ◌*◌, ◌≤◌, ◌<◌, String, true, some, ◌≡◌, ap, ◌∙◌, sym, arith, nat_eq, ltb,
  leb, Bool-cases, inl, inr,
}
use carbmq_core.Base.Text.Decimal.{digit, code-digit, emit, decimal, padded}
use carbmq_core.Api.Numbers.{digits}

-- one digit
digits-digit :
    (n d : ℕ) (s : String) → d < 10 → digits n (String.◌∷◌ (digit d) s) ≡ digits (n * 10 + d) s
unfolding digits
digits-digit n d s h = rw (digits, code-digit d h, lower, upper, value)
  where
    lower : leb b'0' (b'0' + d) ≡ true
    lower = ground arith

    upper : leb (b'0' + d) b'9' ≡ true
    upper = ground arith

    value : b'0' + d - b'0' ≡ d
    value = omega arith

digits-emit : (fuel n : ℕ) (out : String) → n ≤ fuel → digits 0 (emit fuel n out) ≡ digits n out
unfolding emit
digits-emit zero n out h = ap (λ m. digits m out) (omega arith)
digits-emit (suc fuel) n out h = elim (Bool-cases (nat_eq n 0)) [
  | inl none_left ↦ rw none_left (ap (λ m. digits m out) (ground arith))
  | inr more ↦ rw more (
      digits-emit fuel (n / 10) (String.◌∷◌ (digit (n % 10)) out) (ground arith)
      ∙ digits-digit (n / 10) (n % 10) out (omega arith)
      ∙ ap (λ m. digits m out) (omega arith))
]

digits-decimal : (n : ℕ) → digits 0 (decimal n) ≡ some n
unfolding decimal digits
digits-decimal n = elim (Bool-cases (nat_eq n 0)) [
  | inl zero_it_is ↦ rw (decimal, zero_it_is) (ground arith)
  | inr positive ↦ rw (decimal, positive) (digits-emit n n "" (omega arith))
]

-- the zeros in front tell nothing
digits-padded : (n : ℕ) → digits 0 (padded n) ≡ some n
unfolding padded digits
digits-padded n = elim (Bool-cases (ltb n 10)) [
  | inl one ↦ rw (padded, one, cons-append, cons-append, nil-append) (digits-decimal n)
  | inr more ↦ elim (Bool-cases (ltb n 100)) [
    | inl two ↦ rw (padded, more, two, cons-append, nil-append) (digits-decimal n)
    | inr three ↦ rw (padded, more, three) (digits-decimal n)
  ]
]

-- Two numbers with one padded text are one number.
pub padded_injective : (m n : ℕ) → padded m ≡ padded n → m ≡ n
padded_injective m n h =
    some-injective m n (sym (digits-padded m) ∙ ap (digits 0) h ∙ digits-padded n)

-- ===== src/Cmd/Simulator/Start.antt =====
-- cmd/crabmq-sim/main.go: the settings of `main`, and the devices that it starts.
use Prim.Native.Char.{code}
use text.Mathlib.TextLemmas.{append_cancel_left}
use carbmq_core.Base.{
  ℕ, zero, suc, ◌+◌, ◌≤◌, ℤ, pos, leb, nat_eq, String, ◌&&◌, ◌||◌, List, [], ◌∷◌, Option, none,
  some, if◌then◌else◌, ◌==◌, ◌≡◌, ◌≢◌, refl, arith, All, length, ap, pos_part,
}
use carbmq_core.Base.Text.{◌<>◌}
use carbmq_core.Base.Text.Trim.{is_space}
use carbmq_core.Base.Text.Decimal.{padded}
use carbmq_core.Api.Numbers.{atoi}
use carbmq_core.Api.Numbers.Printed.{padded_injective}
use carbmq_core.Config.{Environment, ParseDuration}

pub record SimulatorConfig : Type 0 where
  pub count : ℤ
  pub broker_addr : String
  pub api_base_url : String
  pub device_prefix : String
  pub interval : ℤ

-- `env`
unfoldable pub env : Environment → (key fallback : String) → String
env os key fallback = if os key == "" then fallback else os key

-- `SkipSpace` of package fmt; a line's end is an error
unfoldable skip_space : String → Option String
skip_space String.[] = some ""
skip_space (String.◌∷◌ c s) =
    let rest = skip_space s in
    if nat_eq (code c) b'\n'
    then none
    else if is_space (code c)
    then rest
    else some (String.◌∷◌ c s)

-- the longest run of digits at the beginning
unfoldable leading_digits : String → String
leading_digits String.[] = ""
leading_digits (String.◌∷◌ c s) =
    let rest = leading_digits s in
    if leb b'0' (code c) && leb (code c) b'9' then String.◌∷◌ c rest else ""

-- a sign, which may be left out, and digits
unfoldable number_token : String → String
unfolding leading_digits
number_token String.[] = ""
number_token (String.◌∷◌ c s) =
    if nat_eq (code c) b'+' || nat_eq (code c) b'-'
    then String.◌∷◌ c (leading_digits s)
    else leading_digits (String.◌∷◌ c s)

-- `fmt.Sscanf(value, "%d", &parsed)`, which reads no further than the number
unfoldable pub scan_int : String → Option ℤ
unfolding skip_space number_token
scan_int value = elim (skip_space value) [ none ↦ none | some s ↦ atoi (number_token s) ]

-- `envInt`
unfoldable pub env_int : Environment → (key : String) → (fallback : ℤ) → ℤ
env_int os key fallback =
    if os key == ""
    then fallback
    else elim (scan_int (os key)) [ none ↦ fallback | some parsed ↦ parsed ]

-- `envDuration`
unfoldable pub env_duration : ParseDuration → Environment → (key : String) → (fallback : ℤ) → ℤ
env_duration parse os key fallback =
    if os key == ""
    then fallback
    else elim (parse (os key)) [ none ↦ fallback | some parsed ↦ parsed ]

-- the settings of `main`
unfoldable pub settings : ParseDuration → Environment → SimulatorConfig
unfolding env env_int env_duration
settings parse os = record {
  count = env_int os "CRABMQ_SIM_DEVICE_COUNT" (pos 50);
  broker_addr = env os "CRABMQ_BROKER_ADDR" "127.0.0.1:1884";
  api_base_url = env os "CRABMQ_API_URL" "http://127.0.0.1:8080";
  device_prefix = env os "CRABMQ_SIM_PREFIX" "sim-device";
  interval = env_duration parse os "CRABMQ_SIM_INTERVAL" (pos 5_000_000_000);
}

-- `fmt.Sprintf("%s-%03d", prefix, number)`
unfoldable pub device_id : (prefix : String) → ℕ → String
device_id prefix number = prefix <> "-" <> padded number

-- the loop of `main`: the ids of `rounds` devices from `index` on
unfoldable pub device_ids : (prefix : String) → (index rounds : ℕ) → List String
device_ids prefix index zero = []
device_ids prefix index (suc rounds) =
    device_id prefix (index + 1) ∷ device_ids prefix (index + 1) rounds

-- the devices that `main` starts; a count below 0 is no round
unfoldable pub started : SimulatorConfig → List String
started cfg = device_ids cfg.device_prefix 0 (pos_part cfg.count)

-- no two of the texts are equal
abbrev pub AreDistinct : List String → Type 0
AreDistinct [] = Unit
AreDistinct (s ∷ ss) = All (λ t. s ≢ t) ss × AreDistinct ss

device_id_injective : (prefix : String) (m n : ℕ) → device_id prefix m ≡ device_id prefix n → m ≡ n
unfolding device_id
device_id_injective prefix m n h =
    padded_injective m n (append_cancel_left "-" _ _ (append_cancel_left prefix _ _ h))

device_ids-later :
    (prefix : String) (number index rounds : ℕ)
    → number ≤ index
    → All (λ t. device_id prefix number ≢ t) (device_ids prefix index rounds)
unfolding device_ids
device_ids-later prefix number index zero h = tt
device_ids-later prefix number index (suc rounds) h = (
  λ same. absurd (omega (arith, device_id_injective prefix number (index + 1) same)),
  device_ids-later prefix number (index + 1) rounds (omega arith),
)

device_ids-AreDistinct :
    (prefix : String) (index rounds : ℕ) → AreDistinct (device_ids prefix index rounds)
unfolding device_ids
device_ids-AreDistinct prefix index zero = tt
device_ids-AreDistinct prefix index (suc rounds) = (
  device_ids-later prefix (index + 1) (index + 1) rounds (omega arith),
  device_ids-AreDistinct prefix (index + 1) rounds,
)

length-device_ids :
    (prefix : String) (index rounds : ℕ) → length (device_ids prefix index rounds) ≡ rounds
unfolding device_ids
length-device_ids prefix index zero = refl
length-device_ids prefix index (suc rounds) = ap suc (length-device_ids prefix (index + 1) rounds)

-- The simulator starts as many devices as its settings say, none for a negative count, and no two
-- of them have one id.
pub started-AreDistinct :
    (cfg : SimulatorConfig)
    → AreDistinct (started cfg) × (length (started cfg) ≡ pos_part cfg.count)
unfolding started
started-AreDistinct cfg =
    (device_ids-AreDistinct cfg.device_prefix 0 _, length-device_ids cfg.device_prefix 0 _)

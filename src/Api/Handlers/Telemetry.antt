-- ===== src/Api/Handlers/Telemetry.antt =====
-- Whose telemetry `deviceTelemetry` answers with.
use text.Mathlib.TextLemmas.{append_assoc}
use carbmq_core.Base.{
  ◌≤◌, pos, pos_part, String, true, List, none, ◌≡◌, refl, sym, ap, ◌∙◌, subst, length, All,
  All-map_pred,
}
use carbmq_core.Base.Text.{◌<>◌}
use carbmq_core.Db.Tables.{Message, Tables}
use carbmq_core.Db.Like.{like}
use carbmq_core.Db.Like.Plain.{IsPlain, IsPlain-append, IsPlain-of_test, like_prefix}
use carbmq_core.Db.Messages.{telemetry_pattern}
use carbmq_core.Api.Numbers.{parse_limit}
use carbmq_core.Api.Handlers.{messages, device_telemetry}
use carbmq_core.Api.Handlers.Answers.{device_telemetry_bounded}

-- the beginning of the topics of a device's telemetry
abbrev pub telemetry_prefix : String → String
telemetry_prefix id = "device/" <> id <> "/telemetry"

prefix-IsPlain : (id : String) → IsPlain id → IsPlain (telemetry_prefix id)
prefix-IsPlain id plain =
    IsPlain-append "device/" (id <> "/telemetry") (IsPlain-of_test "device/" refl)
      (IsPlain-append id "/telemetry" plain (IsPlain-of_test "/telemetry" refl))

telemetry_pattern_lem : (id : String) → telemetry_pattern id ≡ telemetry_prefix id <> "%"
unfolding telemetry_pattern
telemetry_pattern_lem id = sym (
    append_assoc "device/" (id <> "/telemetry") "%"
    ∙ ap (λ s. "device/" <> s) (append_assoc id "/telemetry" "%"))

-- Without a fault `deviceTelemetry` answers 200 with messages, at most as many as the limit of the
-- request, or 50 if that is no positive number; and if the device id has no %, _ and \, the topic of
-- each begins with "device/", the id and "/telemetry".
pub device_telemetry_own :
    (id limit : String) (t : Tables)
    → IsPlain id
    → (rows : List Message) × (device_telemetry none id limit t
        ≡ record { status = 200; body = messages rows })
      × (length rows ≤ pos_part (parse_limit limit (pos 50)))
      × All (λ m. (rest : String) × (m.topic ≡ telemetry_prefix id <> rest)) rows
device_telemetry_own id limit t plain =
    let (rows, answer, few, alike) = device_telemetry_bounded id limit t in
    (
      rows,
      answer,
      few,
      All-map_pred (λ m. like (telemetry_pattern id) m.topic ≡ true)
          (λ m. (rest : String) × (m.topic ≡ telemetry_prefix id <> rest))
          (λ m h.
            like_prefix (telemetry_prefix id) m.topic (prefix-IsPlain id plain)
              (subst (λ p. like p m.topic ≡ true) (telemetry_pattern_lem id) h))
          rows alike,
    )

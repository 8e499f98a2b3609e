-- ===== src/Api/Handlers/Answers.antt =====
-- What the answers of the API promise.
use mathlib.Core.List.{Memᴰ}
use carbmq_core.Base.{
  ℕ, zero, suc, ◌≤◌, ℤ, pos, pos_part, ltb_ℤ, String, true, List, [], ◌∷◌, none, some, ◌==◌, ◌≡◌,
  ◌≢◌, ◌⊎◌, inl, inr, refl, arith, sym, eq_iff, length, take, length-take-le, Bool-cases, All,
}
use carbmq_core.Db.Tables.{Message, Tables, where_rows, order_by}
use carbmq_core.Db.Like.{like}
use carbmq_core.Db.Tables.Rows.{order_by-All, where_rows-All}
use carbmq_core.Db.Messages.{effective_limit, telemetry_pattern, get_telemetry, newer}
use carbmq_core.Api.Devices.{telemetry}
use carbmq_core.Api.Numbers.{parse_limit, parse_limit_positive}
use carbmq_core.Api.Handlers.{messages, answer, device_telemetry, contains, cors}

contains-mem : (xs : List String) (s : String) → contains xs s ≡ true → Memᴰ s xs
unfolding contains
contains-mem [] s h = cc
contains-mem (x ∷ xs) s h = elim (Bool-cases (x == s)) [
  | inl same ↦ Memᴰ.head (sym ((eq_iff x s).0 same))
  | inr other ↦ Memᴰ.tail (contains-mem xs s (ground (arith, other, h)))
]

cors_lem :
    (allowed : List String) (origin method found : String)
    → (cors allowed origin method).allow_origin ≡ some found
    → (found ≡ origin)
      × (origin ≢ "")
      × ((contains allowed origin ≡ true) ⊎ (contains allowed "*" ≡ true))
unfolding cors
cors_lem allowed origin method found h = ground (arith, h, eq_iff origin "")

-- An origin that `cors` allows is the request's, is not empty, and is in the configured list, unless
-- that list has `*`.
cors_allows :
    (allowed : List String) (origin method found : String)
    → (cors allowed origin method).allow_origin ≡ some found
    → (found ≡ origin) × (origin ≢ "") × (Memᴰ origin allowed ⊎ Memᴰ "*" allowed)
cors_allows allowed origin method found h =
    let (same, given, listed) = cors_lem allowed origin method found h in
    (
      same,
      given,
      elim listed [
        | inl own ↦ inl (contains-mem allowed origin own)
        | inr any ↦ inr (contains-mem allowed "*" any)
      ],
    )

All-take : {A : Type 0} (P : A → Type 0) (n : ℕ) (xs : List A) → All P xs → All P (take n xs)
All-take P zero xs a = tt
All-take P (suc n) [] a = tt
All-take P (suc n) (x ∷ xs) a = (a.0, All-take P n xs a.1)

positive_limit :
    (limit : ℤ) → ltb_ℤ (pos 0) limit ≡ true → effective_limit limit 50 ≡ pos_part limit
unfolding effective_limit
positive_limit limit h = ground (arith, h)

-- Without a fault `deviceTelemetry` answers 200 with messages whose topics match the device's
-- pattern, at most as many as the limit of the request, or 50 if that is no positive number.
pub device_telemetry_bounded :
    (id limit : String) (t : Tables)
    → (rows : List Message) × (device_telemetry none id limit t
        ≡ record { status = 200; body = messages rows })
      × (length rows ≤ pos_part (parse_limit limit (pos 50)))
      × All (λ m. like (telemetry_pattern id) m.topic ≡ true) rows
unfolding device_telemetry answer telemetry get_telemetry
device_telemetry_bounded id limit t =
    let test = λ (m : Message). like (telemetry_pattern id) m.topic in
    let bound = parse_limit limit (pos 50) in
    let kept = order_by newer (where_rows test t.messages) in
    let n = effective_limit bound 50 in
    let exact = positive_limit bound (parse_limit_positive limit (pos 50) refl) in
    (
      take n kept,
      refl,
      omega (arith, exact, length-take-le n kept),
      All-take (λ m. test m ≡ true) n kept
          (order_by-All (λ m. test m ≡ true) newer (where_rows test t.messages)
            (where_rows-All test t.messages)),
    )

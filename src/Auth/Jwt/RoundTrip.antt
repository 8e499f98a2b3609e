-- ===== src/Auth/Jwt/RoundTrip.antt =====
-- A token that the service issues is one that it accepts, until it expires.
use carbmq_core.Base.{
  ℕ, ◌%◌, ◌<◌, ℤ, pos, leb_ℤ, String, true, false, some, if◌then◌else◌, ◌≡◌, ◌≢◌, refl,
  str_eq-cases, str_eq_of_ne, inl, inr,
}
use carbmq_core.Errors.{Error, Result, ok, err, missing_token, parse_jwt, unexpected_signing_method}
use carbmq_core.Qtt.Packet.{Time}
use carbmq_core.Auth.Claims.{Claims}
use carbmq_core.Auth.Jwt.{
  Method, JwtLib, Service, add_duration, key_func, parse, issued_claims, issue_token,
  issue_device_token, signed,
}

-- `time.Second`
abbrev pub second : ℕ
second = 1_000_000_000

-- claims with dates of whole seconds
abbrev pub IsWhole : Claims → Type 0
IsWhole c = (c.issued_at % second ≡ 0) × (c.expires_at % second ≡ 0)

-- What the library documents of HS256 tokens: a date that it makes is a whole second, its
-- `TimePrecision`; the tokens are no empty texts; and parsing one with a key function that gives the
-- secret it was signed with yields its claims, if their dates are whole seconds, before they expire.
pub record SignsAndParses (lib : JwtLib) : Type 0 where
  pub hs256 : Method
  pub hs256_is_hmac : hs256.is_hmac ≡ true
  pub dates_are_whole : (t : Time) → lib.new_numeric_date t % second ≡ 0
  pub not_empty :
      (c : Claims) (secret token : String) → lib.signed_string c secret ≡ ok token → token ≢ ""
  pub parses :
      (c : Claims) (secret token : String) (now : Time) (key : Method → Result String)
      → IsWhole c
      → lib.signed_string c secret ≡ ok token
      → key hs256 ≡ ok secret
      → now < c.expires_at
      → lib.parse_with_claims now token key ≡ ok (record { claims = some c; valid = true })

-- What it documents of the key function: it is asked with the token's method, and a token for which
-- it fails is refused.
pub record AsksForKey (lib : JwtLib) : Type 0 where
  pub method_of : String → Method
  pub refuses :
      (token : String) (now : Time) (key : Method → Result String) (e : Error)
      → key (method_of token) ≡ err e
      → (f : Error) × (lib.parse_with_claims now token key ≡ err f)

signed-eq-ok : (r : Result String) (token : String) → signed r ≡ ok token → r ≡ ok token
signed-eq-ok (ok t) token h = h
signed-eq-ok (err e) token h = cc

module _ (lib : JwtLib) (s : Service) where
  parse-issue_token :
      (laws : SignsAndParses lib) (now later : Time) (client_id device_id role token : String)
      (ttl : ℤ)
      → issue_token lib s now client_id device_id role ttl ≡ ok token
      → later < (issued_claims lib now client_id device_id role ttl).expires_at
      → parse lib s later token ≡ ok (issued_claims lib now client_id device_id role ttl)
  unfolding issue_token parse
  parse-issue_token laws now later client_id device_id role token ttl e fresh =
      let c = issued_claims lib now client_id device_id role ttl in
      let made = signed-eq-ok (lib.signed_string c s.secret) token e in
      let whole : IsWhole c =
        unfold issued_claims in
        (laws.dates_are_whole now, laws.dates_are_whole (add_duration now ttl)) in
      let accepts : key_func s laws.hs256 ≡ ok s.secret =
        unfold key_func in rw (laws.hs256_is_hmac) refl in
      rw (str_eq_of_ne token "" (laws.not_empty c s.secret token made))
        (rw (laws.parses c s.secret token later (key_func s) whole made accepts fresh) refl)

  -- A device token that was issued, for a positive time or else for the configured one, is parsed
  -- until it expires to claims that name the device, as client and as device, with the role `device`.
  pub parse-issue_device_token :
      (laws : SignsAndParses lib) (now later : Time) (device_id token : String) (ttl lasts : ℤ)
      → lasts ≡ (if leb_ℤ ttl (pos 0) then s.device_ttl else ttl)
      → issue_device_token lib s now device_id ttl ≡ ok token
      → later < lib.new_numeric_date (add_duration now lasts)
      → (c : Claims) × (parse lib s later token ≡ ok c)
        × (c.client_id ≡ device_id)
        × (c.device_id ≡ device_id)
        × (c.role ≡ "device")
  unfolding issue_device_token issued_claims
  parse-issue_device_token laws now later device_id token ttl lasts same e fresh = (
    issued_claims lib now device_id device_id "device" lasts,
    parse-issue_token laws now later device_id device_id "device" token lasts (rw same e) fresh,
    refl,
    refl,
    refl,
  )

  -- A token of another signing method than HMAC is refused, whatever it claims.
  parse_not_hmac :
      (laws : AsksForKey lib) (now : Time) (token : String)
      → (laws.method_of token).is_hmac ≡ false
      → (e : Error) × (parse lib s now token ≡ err e)
  unfolding parse key_func
  parse_not_hmac laws now token h = elim (str_eq-cases token "") [
    | inl (empty, _) ↦ (missing_token, rw empty refl)
    | inr (given, _) ↦
        let (f, refused) =
          laws.refuses token now (key_func s)
            (unexpected_signing_method (laws.method_of token).type_name) (rw h refl) in
        (parse_jwt f, rw given (rw refused refl))
  ]

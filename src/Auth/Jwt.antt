-- ===== src/Auth/Jwt.antt =====
-- internal/auth/jwt/service.go: tokens are issued and parsed by a library, a parameter here.
pub mod RoundTrip
use carbmq_core.Base.{
  ℕ, ◌+◌, ◌-◌, suc, ℤ, pos, negsuc, leb_ℤ, String, Bool, Option, none, some, ◌==◌, if◌then◌else◌,
}
use carbmq_core.Errors.{
  Error, Result, ok, err, missing_token, invalid_token, unexpected_signing_method, parse_jwt,
  sign_jwt,
}
use carbmq_core.Config.{AuthConfig}
use carbmq_core.Qtt.Packet.{Time}
use carbmq_core.Auth.Claims.{Claims}

-- A signing method, with the name of its Go type, as `%T` prints it.
pub record Method : Type 0 where
  pub is_hmac : Bool
  pub type_name : String

-- What `gjwt.ParseWithClaims` returns. `claims` is `none` where the assertion `.(*Claims)` fails.
pub record Token : Type 0 where
  pub claims : Option Claims
  pub valid : Bool

-- github.com/golang-jwt/jwt/v5. A clock reading is given to the parser.
pub record JwtLib : Type 0 where
  pub parse_with_claims : Time → String → (Method → Result String) → Result Token
  pub signed_string : Claims → String → Result String  -- by HS256
  pub new_numeric_date : Time → Time

pub record Service : Type 0 where
  pub secret : String
  pub admin_ttl : ℤ
  pub device_ttl : ℤ

-- `New`
unfoldable pub new_service : AuthConfig → Service
new_service cfg = record {
  secret = cfg.jwt_secret;
  admin_ttl = cfg.admin_token_ttl;
  device_ttl = cfg.device_token_ttl;
}

-- `time.Time.Add`, after the zero time.
abbrev pub add_duration : Time → ℤ → Time
add_duration t (pos d) = t + d
add_duration t (negsuc d) = t - suc d

-- The function that `Parse` passes to the library.
unfoldable pub key_func : Service → Method → Result String
key_func s method =
    if method.is_hmac then ok s.secret else err (unexpected_signing_method method.type_name)

-- The rest of `Parse`, after the call of the library.
check_parsed : Result Token → Result Claims
check_parsed (err e) = err (parse_jwt e)
check_parsed (ok parsed) = elim parsed.claims [
  | none ↦ err invalid_token
  | some claims ↦ if parsed.valid then ok claims else err invalid_token
]

abbrev signed : Result String → Result String
signed (ok token) = ok token
signed (err e) = err (sign_jwt e)

module _ (lib : JwtLib) where
  -- `Service.Parse`
  unfoldable pub parse : Service → Time → String → Result Claims
  unfolding check_parsed
  parse s now token =
      if token == ""
      then err missing_token
      else check_parsed (lib.parse_with_claims now token (key_func s))

  -- the claims that `issueToken` makes at `now`
  unfoldable pub issued_claims : Time → (client_id device_id role : String) → ℤ → Claims
  issued_claims now client_id device_id role ttl = record {
    client_id = client_id;
    device_id = device_id;
    role = role;
    subject = client_id;
    issued_at = lib.new_numeric_date now;
    expires_at = lib.new_numeric_date (add_duration now ttl);
  }

  -- `Service.issueToken`
  unfoldable pub issue_token :
      Service → Time → (client_id device_id role : String) → ℤ → Result String
  unfolding issued_claims
  issue_token s now client_id device_id role ttl =
      signed (lib.signed_string (issued_claims now client_id device_id role ttl) s.secret)

  -- `Service.IssueDeviceToken`
  unfoldable pub issue_device_token : Service → Time → String → ℤ → Result String
  issue_device_token s now device_id ttl =
      issue_token s now device_id device_id "device"
        (if leb_ℤ ttl (pos 0) then s.device_ttl else ttl)

  -- `Service.IssueAdminToken`
  unfoldable pub issue_admin_token : Service → Time → String → ℤ → Result String
  issue_admin_token s now client_id ttl =
      issue_token s now client_id "" "admin" (if leb_ℤ ttl (pos 0) then s.admin_ttl else ttl)

-- ===== src/Auth/Claims.antt =====
-- The claims of a token, `Claims` of internal/auth/jwt/service.go.
use carbmq_core.Base.{String}
use carbmq_core.Qtt.Packet.{Time}

-- The registered claims are those that the program sets.
pub record Claims : Type 0 where
  pub client_id : String
  pub device_id : String
  pub role : String
  pub subject : String
  pub issued_at : Time
  pub expires_at : Time

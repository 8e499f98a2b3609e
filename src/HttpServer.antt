-- ===== src/HttpServer.antt =====
-- The servers of net/http that the program starts, and how they end.
use carbmq_core.Base.{ℕ, String, Option, none, some}
use carbmq_core.Errors.{Error}

pub record HttpServer : Type 0 where
  pub addr : String
  pub read_header_timeout : ℕ

-- five seconds, which both servers are also given to shut down
abbrev pub header_timeout : ℕ
header_timeout = 5_000_000_000

-- What `ListenAndServe` returns: no error, `http.ErrServerClosed`, or another error.
pub data Ended : Type 0 where
  nil : Ended
  server_closed : Ended
  fails : Error → Ended

-- `err != nil && err != http.ErrServerClosed`
unfoldable pub failure : Ended → Option Error
failure nil = none
failure server_closed = none
failure (fails e) = some e

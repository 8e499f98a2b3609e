-- ===== src/Api/Serve.antt =====
-- api/handlers/http.go: the server of the management API.
use carbmq_core.Base.{Option}
use carbmq_core.Errors.{Error}
use carbmq_core.Config.{Config}
use carbmq_core.HttpServer.{HttpServer, header_timeout, Ended, failure}

-- the server that `NewServer` makes
unfoldable new_http_server : Config → HttpServer
new_http_server cfg = record { addr = cfg.api.listen_addr; read_header_timeout = header_timeout }

-- what `Serve` returns, on what `ListenAndServe` returns
unfoldable pub serve : Ended → Option Error
serve = failure

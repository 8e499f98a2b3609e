-- ===== src/Broker/Server/Initial.antt =====
-- The broker that `New` of internal/broker/server/server.go makes.
use carbmq_core.Base.{ℕ, [], refl}
use carbmq_core.Config.{Config}
use carbmq_core.Auth.Jwt.{new_service}
use carbmq_core.Db.Tables.{Tables}
use carbmq_core.Db.Offline.Laws.{IsKeyed}
use carbmq_core.Base.Assoc.{lookup}
use carbmq_core.Broker.Subscription.{list, by_client}
use carbmq_core.Broker.Session.{get, online_count}
use carbmq_core.Broker.Limiter.{new_rate_limiter}
use carbmq_core.Broker.State.{Server, new_metrics}
use carbmq_core.Broker.Server.Connection.Consistent.{IsValid}

-- `time.Minute`
abbrev minute : ℕ
minute = 60_000_000_000

-- `New`, over what the database holds
unfoldable pub new_server : Config → Tables → Server
new_server cfg tables = record {
  auth = new_service cfg.auth;
  sessions = [];
  subscriptions = [];
  tables = tables;
  metrics = new_metrics;
  limiter = new_rate_limiter cfg.broker.rate_limit_per_min minute;
  calls = 0;
  sent = [];
}

new_server-IsValid :
    (cfg : Config) (tables : Tables)
    → IsKeyed tables.offline_messages
    → IsValid (new_server cfg tables)
unfolding new_server new_metrics list get online_count lookup by_client
new_server-IsValid cfg tables keyed = record {
  agree = record { filters = λ c. refl; distinct = λ c. tt; online = λ c. refl };
  gauge = refl;
  keyed = keyed;
}

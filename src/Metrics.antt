-- ===== src/Metrics.antt =====
-- internal/metrics/metrics.go: the collectors that `New` registers, and the endpoint that `Start` runs.
-- The counters themselves are fields of the broker's state.
pub mod Shown
use carbmq_core.Base.{ℕ, ℤ, pos, String, List, [], ◌∷◌, Option, none, some, map}
use carbmq_core.Base.Text.{◌<>◌}
use carbmq_core.Errors.{Error, wrap, metrics_server}
use carbmq_core.Broker.State.{Metrics}
use carbmq_core.HttpServer.{HttpServer, header_timeout, Ended, failure}

pub record Collector : Type 0 where
  pub namespace : String
  pub subsystem : String
  pub name : String
  pub help : String
  pub value : Metrics → ℤ

abbrev of_broker : (name help : String) → (Metrics → ℤ) → Collector
of_broker name help value = record {
  namespace = "crabmq";
  subsystem = "broker";
  name = name;
  help = help;
  value = value;
}

-- the collectors in the order of `MustRegister`, each with the field that it shows
unfoldable pub collectors : List Collector
collectors =
    of_broker "packets_in_total" "Number of QTT packets received by the broker."
      (λ m. pos m.packets_in)
    ∷ of_broker "packets_out_total" "Number of QTT packets sent by the broker."
        (λ m. pos m.packets_out)
    ∷ of_broker "publishes_total" "Number of publish packets accepted by the broker."
        (λ m. pos m.publishes)
    ∷ of_broker "subscriptions_total" "Number of subscription requests processed by the broker."
        (λ m. pos m.subscriptions)
    ∷ of_broker "auth_failures_total" "Number of rejected authentication attempts."
        (λ m. pos m.auth_failures)
    ∷ of_broker "rate_limited_total" "Number of packets rejected due to rate limiting."
        (λ m. pos m.rate_limited)
    ∷ of_broker "failed_deliveries_total" "Number of routed packets that could not be delivered."
        (λ m. pos m.failed_deliveries)
    ∷ of_broker "active_sessions" "Current number of online client sessions."
        (λ m. pos m.active_sessions)
    ∷ of_broker "offline_queue_depth" "Current depth of the persistent offline queue."
        (λ m. m.offline_queue)
    ∷ []

-- the name under which a collector is registered and shown
unfoldable pub full_name : Collector → String
full_name c = c.namespace <> "_" <> c.subsystem <> "_" <> c.name

-- what the endpoint shows of the counters
unfoldable pub shown : Metrics → List (String × ℤ)
unfolding collectors full_name
shown m = map (λ c. (full_name c, c.value m)) collectors

-- the server of `Start`
unfoldable pub endpoint : (addr : String) → HttpServer
endpoint addr = record { addr = addr; read_header_timeout = header_timeout }

-- what `Start` returns, on what `ListenAndServe` returns
unfoldable pub start : Ended → Option Error
start ended = wrap metrics_server (failure ended)

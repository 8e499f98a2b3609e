-- ===== src/Metrics/Shown.antt =====
-- What the endpoint shows of a broker.
use carbmq_core.Base.{pos, some, ◌≡◌, ap}
use carbmq_core.Base.Assoc.{lookup}
use carbmq_core.Broker.Session.{online_count}
use carbmq_core.Broker.State.{Env, Server}
use carbmq_core.Broker.Server.Connection.Consistent.{IsValid}
use carbmq_core.Broker.Server.Connection.Steps.{World, Reach, Reach-IsRunning}
use carbmq_core.Metrics.{shown}

-- While the handlers of a valid broker are run one at a time, the metrics endpoint shows, under the name of
-- the gauge of active sessions, the number of sessions that are online.
pub shown-online_count :
    (env : Env) (s : Server) (w : World)
    → IsValid s
    → Reach env s w
    → lookup "crabmq_broker_active_sessions" (shown w.server.metrics)
      ≡ some (pos (online_count w.server.sessions))
unfolding lookup shown
shown-online_count env s w valid r =
    ap (λ n. some (pos n)) (Reach-IsRunning env s w valid r).valid.gauge

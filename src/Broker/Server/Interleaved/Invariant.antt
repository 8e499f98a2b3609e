-- ===== src/Broker/Server/Interleaved/Invariant.antt =====
-- What holds in every interleaving of the calls.
use carbmq_core.Base.{String, true, ◌≡◌, ◌≢◌, ◌⊎◌, All}
use carbmq_core.Broker.Session.{is_some, get}
use carbmq_core.Broker.Subscription.{list, Registry}
use carbmq_core.Broker.State.{Server}
use carbmq_core.Broker.Server.Interleaved.{Stage, adding, Thread, World}
use carbmq_core.Broker.Server.Interleaved.Topics.{Has, Asks}
use carbmq_core.Broker.Server.Interleaved.Shared.{IsShared}

-- Filters that are on their way to the session are in the registry.
abbrev pub InRegistry : Registry → String → Stage → Type 0
InRegistry registry client (adding subs) =
    (topic : String) → Asks topic subs → Has topic (list client registry)
InRegistry registry client _ = Unit

-- A connection whose client has a session, and is the token's device if the token is a device's.
pub record IsServed (s : Server) (t : Thread) : Type 0 where
  pub has_session : is_some (get t.client s.sessions) ≡ true
  pub own_device : (t.claims.role ≢ "device") ⊎ (t.claims.device_id ≡ t.client)
  pub in_registry : InRegistry s.subscriptions t.client t.stage

pub record IsOrdered (w : World) : Type 0 where
  pub shared : IsShared w.server
  pub served : All (IsServed w.server) w.threads

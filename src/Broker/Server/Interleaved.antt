-- ===== src/Broker/Server/Interleaved.antt =====
-- The calls of the handlers on the sessions, the registry and the gauge, one at a time: those of
-- different connections come in any order.
pub mod Topics
pub mod Shared
pub mod Invariant
pub mod Race
use carbmq_core.Base.{ℕ, String, List, [], ◌∷◌, ◌++◌, Option, none, ◌≡◌}
use carbmq_core.Errors.{Result, ok}
use carbmq_core.Qtt.Packet.{Packet, Time, Subscription}
use carbmq_core.Auth.Claims.{Claims}
use carbmq_core.Broker.Session.{ConnId, online_count, touch}
use carbmq_core.Broker.State.{Env, Server, called}
use carbmq_core.Broker.Server.{checked, refused, upserted, registered, remembered, set_gauge}
use carbmq_core.Broker.Server.Connection.{disconnected}

-- Where a connection stands between two calls: its session is stored; what `OnlineCount` gave is to be
-- set; it serves; filters are with the registry and not yet with the session; its session was taken
-- offline; and what `OnlineCount` gave then is to be set.
pub data Stage : Type 0 where
  entering : Stage
  setting : ℕ → Stage
  serving : Stage
  adding : List Subscription → Stage
  leaving : Stage
  closing : ℕ → Stage

-- A connection that was let in.
pub record Thread : Type 0 where
  pub conn : ConnId
  pub client : String
  pub claims : Claims
  pub stage : Stage

pub record World : Type 0 where
  pub threads : List Thread
  pub server : Server

abbrev pub world : List Thread → Server → World
world threads s = record { threads = threads; server = s }

abbrev pub at : Thread → Stage → Thread
at t stage = record t { stage = stage }

-- One call of one connection. `elsewhere` is all that leaves the sessions, the registry and the gauge
-- as they are: statements, sends, the limiter and the other counters.
pub data Step (env : Env) : World → World → Type 0 where
  upserts :
      (ts : List Thread) (s : Server) (conn : ConnId) (received : Result Packet) (client : String)
      (claims : Claims)
      → checked env received s ≡ ok (client, claims)
      → Step env (world ts s) (
          world
            ((record { conn = conn; client = client; claims = claims; stage = entering }) ∷ ts)
            (upserted env conn client claims (called s)).1)
  counts_in :
      (before after : List Thread) (t : Thread) (s : Server)
      → Step env
          (world (before ++ at t entering ∷ after) s)
          (world (before ++ at t (setting (online_count s.sessions)) ∷ after) s)
  sets :
      (before after : List Thread) (t : Thread) (s : Server) (n : ℕ)
      → Step env
          (world (before ++ at t (setting n) ∷ after) s)
          (world (before ++ at t serving ∷ after) (set_gauge n s))
  touches :
      (before after : List Thread) (t : Thread) (s : Server) (now : Time)
      → Step env (world (before ++ at t serving ∷ after) s) (
          world
            (before ++ at t serving ∷ after)
            (record s { sessions = touch t.client now s.sessions }))
  adds :
      (before after : List Thread) (t : Thread) (s : Server) (subs : List Subscription)
      → refused t.claims subs ≡ none
      → Step env
          (world (before ++ at t serving ∷ after) s)
          (world (before ++ at t (adding subs) ∷ after) (registered t.client subs s))
  remembers :
      (before after : List Thread) (t : Thread) (s : Server) (subs : List Subscription)
      → Step env
          (world (before ++ at t (adding subs) ∷ after) s)
          (world (before ++ at t serving ∷ after) (remembered t.client subs s))
  disconnects :
      (before after : List Thread) (t : Thread) (s : Server)
      → Step env
          (world (before ++ at t serving ∷ after) s)
          (world (before ++ at t leaving ∷ after) (disconnected env t.client s))
  counts_out :
      (before after : List Thread) (t : Thread) (s : Server)
      → Step env
          (world (before ++ at t leaving ∷ after) s)
          (world (before ++ at t (closing (online_count s.sessions)) ∷ after) s)
  closes :
      (before after : List Thread) (t : Thread) (s : Server) (n : ℕ)
      → Step env
          (world (before ++ at t (closing n) ∷ after) s)
          (world (before ++ after) (set_gauge n s))
  -- the CONNACK could not be sent
  abandons :
      (before after : List Thread) (t : Thread) (s : Server)
      → Step env (world (before ++ at t serving ∷ after) s) (world (before ++ after) s)
  elsewhere :
      (ts : List Thread) (s s' : Server)
      → s'.sessions ≡ s.sessions
      → s'.subscriptions ≡ s.subscriptions
      → s'.metrics.active_sessions ≡ s.metrics.active_sessions
      → Step env (world ts s) (world ts s')

-- The worlds that a broker comes to from one with no connections.
pub data Reach (env : Env) (s : Server) : World → Type 0 where
  begin : Reach env s (world [] s)
  next : {w v : World} → Reach env s w → Step env w v → Reach env s v

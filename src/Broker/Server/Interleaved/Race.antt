-- ===== src/Broker/Server/Interleaved/Race.antt =====
-- The gauge of active sessions under two connections.
use carbmq_core.Base.{◌+◌, String, false, [], ◌∷◌, ◌≡◌, arith}
use carbmq_core.Errors.{Result, ok}
use carbmq_core.Qtt.Packet.{Packet}
use carbmq_core.Auth.Claims.{Claims}
use carbmq_core.Broker.Session.{ConnId, get, online_count}
use carbmq_core.Broker.Session.Laws.{is_online}
use carbmq_core.Broker.Session.Counts.{online_count-upsert_connected}
use carbmq_core.Broker.Server.Interleaved.Shared.{arriving}
use carbmq_core.Broker.State.{Env, Server, called}
use carbmq_core.Broker.Server.{checked, upserted, set_gauge}
use carbmq_core.Broker.Server.Interleaved.{
  setting, serving, Thread, world, at, upserts, counts_in, sets, Reach, begin, next,
}

-- A client that was not online is one more.
upserted_counts :
    (env : Env) (conn : ConnId) (client : String) (claims : Claims) (s : Server)
    → is_online (get client s.sessions) ≡ false
    → online_count (upserted env conn client claims s).1.sessions ≡ online_count s.sessions + 1
upserted_counts env conn client claims s away =
    online_count-upsert_connected (arriving env conn client claims s) (env.clock (s.calls + 2))
      (env.clock (s.calls + 3)) s.sessions away

abbrev pub thread : ConnId → String → Claims → Thread
thread conn client claims = record {
  conn = conn;
  client = client;
  claims = claims;
  stage = serving;
}

-- Two clients that are let in one behind the other, neither of them online before, can be served with
-- a gauge that tells one session less than are online: the first counts before the second is stored,
-- and sets the gauge after the second has.
pub gauge_race :
    (env : Env) (s : Server) (conn conn' : ConnId) (received received' : Result Packet)
    (client client' : String) (claims claims' : Claims)
    → let s₁ = (upserted env conn client claims (called s)).1 in
      checked env received s ≡ ok (client, claims)
      → is_online (get client s.sessions) ≡ false
      → checked env received' s₁ ≡ ok (client', claims')
      → is_online (get client' s₁.sessions) ≡ false
      → (s' : Server) × Reach env s
          (world (thread conn' client' claims' ∷ thread conn client claims ∷ []) s')
        × (s'.metrics.active_sessions + 1 ≡ online_count s'.sessions)
gauge_race env s conn conn' received received' client client' claims claims' first away second
      away' =
    let s₁ = (upserted env conn client claims (called s)).1 in
    let s₂ = (upserted env conn' client' claims' (called s₁)).1 in
    let n = online_count s₁.sessions in
    let m = online_count s₂.sessions in
    let a = thread conn client claims in
    let b = thread conn' client' claims' in
    let entered = next begin (upserts [] s conn received client claims first) in
    let counted = next entered (counts_in [] [] a s₁) in
    let both = next counted (upserts _ s₁ conn' received' client' claims' second) in
    let counted' = next both (counts_in [] (at a (setting n) ∷ []) b s₂) in
    let set' = next counted' (sets [] (at a (setting n) ∷ []) b s₂ m) in
    let set = next set' (sets (b ∷ []) [] a (set_gauge m s₂) n) in
    (
      set_gauge n (set_gauge m s₂),
      set,
      omega (arith, upserted_counts env conn' client' claims' (called s₁) away'),
    )

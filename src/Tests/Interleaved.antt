-- ===== src/Tests/Interleaved.antt =====
-- Interleaved calls at concrete inputs.
use carbmq_core.Base.{true, Option, ◌+◌, false, [], ◌∷◌, ◌≡◌, refl}
use carbmq_core.Base.Assoc.{lookup, insert}
use carbmq_core.Errors.{ok}
use carbmq_core.Qtt.Packet.{Packet}
use carbmq_core.Auth.Claims.{Claims}
use carbmq_core.Auth.Jwt.{parse, key_func}
use carbmq_core.Broker.Session.{get, online_count, upsert_connected}
use carbmq_core.Broker.Session.Laws.{is_online}
use carbmq_core.Broker.State.{Env, Server, called}
use carbmq_core.Auth.Jwt.{JwtLib}
use carbmq_core.Broker.Server.{checked, identify, upserted, registered, remembered, set_gauge}
use carbmq_core.Broker.Server.Interleaved.{Stage, Thread, World, world, Reach}
use carbmq_core.Broker.Server.Interleaved.Race.{thread, gauge_race}
use carbmq_core.Tests.Data.{env, idle, connect, device_claims, commands}

abbrev arrived : World
arrived =
    world (record { conn = 7; client = "d1"; claims = device_claims; stage = Stage.entering } ∷ [])
      (upserted env 7 "d1" device_claims (called idle)).1

abbrev subscriber : Thread
subscriber = thread 7 "d1" device_claims

-- let in, counted, and its filter stored with the registry and then with the session
abbrev subscribed_world : World
subscribed_world =
    let s = arrived.server in
    let s' = set_gauge (online_count s.sessions) s in
    world (subscriber ∷ []) (remembered "d1" (commands ∷ []) (registered "d1" (commands ∷ []) s'))

-- an administrator's token, which names no device, lets every client in
abbrev admin_claims : Claims
admin_claims = record device_claims { client_id = "a1"; device_id = ""; role = "admin" }

abbrev admin_lib : JwtLib
admin_lib = record env.jwt {
  parse_with_claims =
      λ now token key. ok (record { claims = Option.some admin_claims; valid = true });
}

abbrev admin_env : Env
admin_env = record env { jwt = admin_lib }

abbrev other : Packet
other = record connect { client_id = "a2" }

first_known : checked admin_env (ok connect) idle ≡ ok ("a1", admin_claims)
unfolding checked parse key_func identify
first_known = refl

abbrev entered : Server
entered = (upserted admin_env 7 "a1" admin_claims (called idle)).1

second_known : checked admin_env (ok other) entered ≡ ok ("a2", admin_claims)
unfolding checked parse key_func identify
second_known = refl

first_away : is_online (get "a1" idle.sessions) ≡ false
unfolding get lookup
first_away = refl

second_away : is_online (get "a2" entered.sessions) ≡ false
unfolding get lookup upsert_connected insert
second_away = refl

gauge_race_example :
    (s' : Server) × Reach admin_env idle
      (world (thread 8 "a2" admin_claims ∷ thread 7 "a1" admin_claims ∷ []) s')
    × (s'.metrics.active_sessions + 1 ≡ online_count s'.sessions)
gauge_race_example =
    gauge_race admin_env idle 7 8 (ok connect) (ok other) "a1" "a2" admin_claims admin_claims
      first_known first_away second_known second_away

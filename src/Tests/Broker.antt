-- ===== src/Tests/Broker.antt =====
-- Sessions and handlers at concrete inputs.
use mathlib.Core.List.{Memᴰ}
use carbmq_core.Base.{◌+◌, pos, false, [], ◌∷◌, none, some, ◌≡◌, refl}
use carbmq_core.Errors.{Error, ok}
use carbmq_core.Qtt.Packet.{Packet, Subscription, zero_packet, packet_subscribe}
use carbmq_core.Auth.Acl.{can_subscribe}
use carbmq_core.Auth.Jwt
use carbmq_core.Base.Assoc.{lookup}
use carbmq_core.Broker.Session.{Session, get, upsert_connected, online_count}
use carbmq_core.Broker.Session.Laws.{stored_subscriptions, is_online, conn_of}
use carbmq_core.Broker.Subscription.{list}
use carbmq_core.Broker.Subscription
use carbmq_core.Broker.Limiter.{allow}
use carbmq_core.Broker.State.{Server, send, send_built}
use carbmq_core.Broker.Server.{handle_subscribe, authenticate, checked, identify}
use carbmq_core.Broker.Server.Connection.{finish, start}
use carbmq_core.Broker.Server.Connection.Consistent.{IsValid}
use carbmq_core.Broker.Server.Connection.Accept.{Admits, Connected, authenticate-Admits}
use carbmq_core.Broker.Server.Connection.Refusals.{handle_subscribe_refused, finish_offline}
use carbmq_core.Broker.Server.Connection.Steps.{
  World, Step, Reach, IsRunning, entered, Reach-IsRunning,
}
use carbmq_core.Metrics.{shown}
use carbmq_core.Metrics.Shown.{shown-online_count}
use carbmq_core.Tests.Data.{device_claims, env, idle, busy, session, commands, connect}

abbrev returning : Session
returning = record session { conn = some 8; online = false; subscriptions = [] }

has_session : get "d1" busy.sessions ≡ some session
unfolding get lookup
has_session = refl

abbrev foreign : Subscription
foreign = record { topic = "device/d2/command"; qos = pos 1 }

abbrev subscribe : Packet
subscribe = record zero_packet {
  type = packet_subscribe;
  packet_id = "s1";
  subscriptions = commands ∷ foreign ∷ [];
}

is_foreign :
    can_subscribe device_claims foreign.topic
    ≡ some (Error.cannot_subscribe "d1" "device/d2/command")
unfolding can_subscribe
is_foreign = refl

handle_subscribe_refused_example :
    (f : Error) × (handle_subscribe env 7 "d1" device_claims subscribe busy ≡ (some f, busy))
handle_subscribe_refused_example =
    handle_subscribe_refused env 7 "d1" device_claims subscribe busy foreign
      (Error.cannot_subscribe "d1" "device/d2/command") (Memᴰ.tail (Memᴰ.head refl)) is_foreign

-- the limit of two packets is used up
abbrev hurried : Server
hurried = record busy {
  limiter = record busy.limiter { seen = ("d1", record { reset_at = 60; count = pos 2 }) ∷ [] };
}

is_limited : (allow (env.clock (hurried.calls + 1)) "d1" hurried.limiter).0 ≡ false
unfolding allow lookup
is_limited = refl

finish_offline_example :
    let after = get "d1" (finish env "d1" busy).sessions in
    (is_online after ≡ false)
    × (conn_of after ≡ none)
    × (stored_subscriptions after ≡ stored_subscriptions (get "d1" busy.sessions))
finish_offline_example = finish_offline env "d1" busy

is_let_in : (authenticate env 7 (ok connect) idle).0 ≡ ok ("d1", device_claims, [])
unfolding authenticate checked Jwt.parse Jwt.key_func identify send_built send upsert_connected
    lookup
is_let_in = refl

authenticate-Admits_example :
    Admits env (ok connect) idle "d1" device_claims
    × Connected idle.sessions (authenticate env 7 (ok connect) idle).1.sessions 7 "d1" []
authenticate-Admits_example =
    authenticate-Admits env 7 (ok connect) idle "d1" device_claims [] is_let_in

idle-IsValid : IsValid idle
unfolding list Subscription.by_client get online_count lookup
idle-IsValid = record {
  agree = record { filters = λ c. refl; distinct = λ c. tt; online = λ c. refl };
  gauge = refl;
  keyed = tt;
}

abbrev opened_world : World
opened_world = record {
  live = entered 7 (start env 7 (ok connect) idle).0 [];
  server = (start env 7 (ok connect) idle).1;
}

Reach-IsRunning_example : IsRunning opened_world
Reach-IsRunning_example =
    Reach-IsRunning env idle opened_world idle-IsValid
      (Reach.next Reach.begin (Step.opens [] idle 7 (ok connect)))

shown_when_open :
    lookup "crabmq_broker_active_sessions" (shown opened_world.server.metrics)
    ≡ some (pos (online_count opened_world.server.sessions))
shown_when_open =
    shown-online_count env idle opened_world idle-IsValid
      (Reach.next Reach.begin (Step.opens [] idle 7 (ok connect)))

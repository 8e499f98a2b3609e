-- ===== src/Tests/Sent.antt =====
-- What the broker sends, at concrete inputs.
use mathlib.Core.List.{Memᴰ}
use carbmq_core.Base.{[], ◌∷◌, some, true, ◌≡◌, refl, inl, inr, eq_iff, arith}
use carbmq_core.Base.Assoc.{lookup, insert}
use carbmq_core.Errors.{ok}
use carbmq_core.Qtt.Builders.{pub_ack}
use carbmq_core.Broker.State.{Server}
use carbmq_core.Broker.Router.Payloads.{Carries}
use carbmq_core.Broker.Server.Connection.{start}
use carbmq_core.Broker.Server.Connection.Steps.{Live, World, Step, Reach, entered, handled}
use carbmq_core.Broker.Server.Connection.Carried.{Reach-Carries}
use carbmq_core.Tests.Data.{env, idle, connect, device_claims}
use carbmq_core.Tests.Wire.{toy_text, received, spaced_wire, compacts_once, all_json, taken}
use carbmq_core.Wire.Value.{Json, obj, members}
use carbmq_core.Wire.Encode.{encode}
use carbmq_core.Wire.Forwards.{IsJson}
use carbmq_core.Wire.Sent.{IsWritable, Reach-encodes}
use carbmq_core.Base.{pos, false}

-- the connection of the device, and the broker when it has been let in
abbrev l : Live
l = record { conn = 7; client = "d1"; claims = device_claims }

abbrev entering : World
entering = record {
  live = entered 7 (start env 7 (ok connect) idle).0 [];
  server = (start env 7 (ok connect) idle).1;
}

is_live : Memᴰ l entering.live
unfolding start carbmq_core.Broker.Server.authenticate carbmq_core.Broker.Server.checked
    carbmq_core.Auth.Jwt.parse carbmq_core.Auth.Jwt.key_func carbmq_core.Broker.Server.identify
    carbmq_core.Broker.State.send_built carbmq_core.Broker.State.send
is_live = Memᴰ.head refl

goes_on : (handled env l received entering.server).0 ≡ true
unfolding start carbmq_core.Broker.Server.authenticate carbmq_core.Broker.Server.checked
    carbmq_core.Auth.Jwt.parse carbmq_core.Auth.Jwt.key_func carbmq_core.Broker.Server.identify
    carbmq_core.Broker.State.send_built carbmq_core.Broker.State.send
    carbmq_core.Broker.Server.Connection.handle_packet carbmq_core.Broker.Limiter.allow lookup
    insert carbmq_core.Broker.Server.deliver_offline carbmq_core.Queue.Persistent.pending
    carbmq_core.Db.Offline.get_offline_messages carbmq_core.Broker.Server.send_all
    carbmq_core.Db.Tables.order_by carbmq_core.Db.Tables.where_rows carbmq_core.Auth.Acl.can_publish
    carbmq_core.Base.Text.has_suffix carbmq_core.Base.Text.split carbmq_core.Broker.Router.route
    carbmq_core.Broker.Router.route_matches carbmq_core.Broker.Server.Connection.dispatch
    carbmq_core.Broker.Server.handle_publish carbmq_core.Broker.Server.save
    carbmq_core.Broker.Session.get carbmq_core.Broker.Session.touch
    carbmq_core.Broker.Session.upsert_connected carbmq_core.Broker.Subscription.by_client
    carbmq_core.Broker.Subscription.match carbmq_core.Broker.Subscription.match_client
    carbmq_core.Broker.Subscription.match_clients carbmq_core.Db.Messages.save_message
    carbmq_core.Db.Messages.insert_message
goes_on = refl

braces : IsJson toy_text (b'{' ∷ b'}' ∷ [])
braces = (b'{' ∷ b'}' ∷ [], refl)

abbrev published : World
published = record { live = entering.live; server = (handled env l received entering.server).1 }

abbrev run : Reach env idle published
run =
    Reach.next (Reach.next Reach.begin (Step.opens [] idle 7 (ok connect)))
      (Step.receives entering.live entering.server l received is_live goes_on)

Reach-Carries_example : Carries (IsWritable toy_text) published.server
Reach-Carries_example =
    Reach-Carries (IsWritable toy_text) env idle published (inr braces) (inl refl) (λ b h. h) run
      (tt, inr (b'7' ∷ [], refl)) (record { sent = tt; queued = tt })

was_sent : Memᴰ (7, pub_ack 24 "p1") published.server.sent
unfolding start carbmq_core.Broker.Server.authenticate carbmq_core.Broker.Server.checked
    carbmq_core.Auth.Jwt.parse carbmq_core.Auth.Jwt.key_func carbmq_core.Broker.Server.identify
    carbmq_core.Broker.State.send_built carbmq_core.Broker.State.send
    carbmq_core.Broker.Server.Connection.handle_packet carbmq_core.Broker.Limiter.allow lookup
    insert carbmq_core.Broker.Server.deliver_offline carbmq_core.Queue.Persistent.pending
    carbmq_core.Db.Offline.get_offline_messages carbmq_core.Broker.Server.send_all
    carbmq_core.Db.Tables.order_by carbmq_core.Db.Tables.where_rows carbmq_core.Auth.Acl.can_publish
    carbmq_core.Base.Text.has_suffix carbmq_core.Base.Text.split carbmq_core.Broker.Router.route
    carbmq_core.Broker.Router.route_matches carbmq_core.Broker.Server.Connection.dispatch
    carbmq_core.Broker.Server.handle_publish carbmq_core.Broker.Server.save
    carbmq_core.Broker.Session.get carbmq_core.Broker.Session.touch
    carbmq_core.Broker.Session.upsert_connected carbmq_core.Broker.Subscription.by_client
    carbmq_core.Broker.Subscription.match carbmq_core.Broker.Subscription.match_client
    carbmq_core.Broker.Subscription.match_clients carbmq_core.Db.Messages.save_message
    carbmq_core.Db.Messages.insert_message
was_sent = Memᴰ.tail (Memᴰ.head refl)

Reach-encodes_example : (j : Json) × (encode toy_text (pub_ack 24 "p1") ≡ some j)
unfolding pub_ack
Reach-encodes_example =
    Reach-encodes toy_text env idle published 7 (pub_ack 24 "p1") "0001-01-01T00:00:00.000000005Z"
      braces (λ b h. h) compacts_once run (tt, (obj (members spaced_wire), all_json, taken))
      (record { sent = tt; queued = tt }) was_sent refl

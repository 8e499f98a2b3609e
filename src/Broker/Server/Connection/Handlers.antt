-- ===== src/Broker/Server/Connection/Handlers.antt =====
-- Every step of a connection keeps the broker's parts in agreement, and no session is dropped.
use carbmq_core.Base.{
  ◌+◌, String, Bool, true, List, Option, none, some, ◌≡◌, refl, arith, sym, ◌∙◌, subst,
  Option-cases, Bool-cases, inl, inr, ◌==◌, if_both,
}
use carbmq_core.Errors.{Error, error_text, unsupported_packet}
use carbmq_core.Qtt.Packet.{
  Packet, Subscription, packet_publish, packet_pub_ack, packet_subscribe, packet_ping,
  packet_disconnect,
}
use carbmq_core.Qtt.Builders.{pong, sub_ack}
use carbmq_core.Auth.Claims.{Claims}
use carbmq_core.Broker.Session.{ConnId, is_some, get}
use carbmq_core.Broker.Session.Laws.{add_subscriptions-get}
use carbmq_core.Broker.Session.Counts.{online_count-add_subscriptions}
use carbmq_core.Broker.State.{Env, Server, send_built}
use carbmq_core.Broker.Server.{refused, is_empty, subscribed, handle_subscribe, handle_publish}
use carbmq_core.Broker.Server.Connection.{reported, ponged, marked, acked, queue_ack, dispatch}
use carbmq_core.Broker.Server.Connection.Consistent.{IsValid, subscribe-Agree}
use carbmq_core.Broker.Server.Connection.Quiet.{
  Quiet, Quiet-refl, Quiet-trans, Quiet-IsValid, count-Quiet, send_built-Quiet, send_error-Quiet,
  counted_send-Quiet, handle_publish-Quiet,
}
use carbmq_core.Db.Tables.{Tables}
use carbmq_core.Db.Messages.{mark_message_acknowledged}
use carbmq_core.Db.Offline.Laws.{IsKeyed, delete_offline_message-IsKeyed}
use carbmq_core.Queue.Persistent

-- A step that leaves a valid broker valid and drops no session.
pub record Sound (s s' : Server) : Type 0 where
  pub valid : IsValid s'
  pub stays : (c : String) → is_some (get c s.sessions) ≡ true → is_some (get c s'.sessions) ≡ true

pub Quiet-Sound : {s s' : Server} → Quiet s s' → IsValid s → Sound s s'
Quiet-Sound q h = record { valid = Quiet-IsValid q h; stays = λ c there. rw q.sessions there }

pub Sound-Quiet : {s t u : Server} → Sound s t → Quiet t u → Sound s u
Sound-Quiet h q = record {
  valid = Quiet-IsValid q h.valid;
  stays = λ c there. rw q.sessions (h.stays c there);
}

pub Quiet-then : {s t u : Server} → Quiet s t → Sound t u → Sound s u
Quiet-then q h = record { valid = h.valid; stays = λ c there. h.stays c (rw q.sessions there) }

pub Sound-trans : {s t u : Server} → Sound s t → Sound t u → Sound s u
Sound-trans h k = record { valid = k.valid; stays = λ c there. k.stays c (h.stays c there) }

subscribed-Sound :
    (client : String) (subs : List Subscription) (s : Server)
    → is_some (get client s.sessions) ≡ true
    → IsValid s
    → Sound s (subscribed client subs s)
unfolding subscribed
subscribed-Sound client subs s there h = record {
  valid = record {
    agree = subscribe-Agree client subs s.sessions s.subscriptions there h.agree;
    gauge = h.gauge ∙ sym (online_count-add_subscriptions client subs s.sessions);
    keyed = h.keyed;
  };
  stays = λ c old. (add_subscriptions-get client c subs s.sessions).0 ∙ old;
}

handle_subscribe-Sound :
    (env : Env) (conn : ConnId) (client : String) (claims : Claims) (p : Packet) (s : Server)
    → is_some (get client s.sessions) ≡ true
    → IsValid s
    → Sound s (handle_subscribe env conn client claims p s).1
unfolding handle_subscribe
handle_subscribe-Sound env conn client claims p s there h =
    elim (Bool-cases (is_empty p.subscriptions)) [
      | inl none_given ↦ rw none_given (Quiet-Sound (Quiet-refl s) h)
      | inr given ↦ elim (Option-cases (refused claims p.subscriptions)) [
        | inr (e, denied) ↦ rw (given, denied) (Quiet-Sound (Quiet-refl s) h)
        | inl allowed ↦
            let s' = subscribed client p.subscriptions s in
            rw (given, allowed)
              (Sound-Quiet (subscribed-Sound client p.subscriptions s there h) (
                counted_send-Quiet s' (send_built env conn (λ now. sub_ack now p.packet_id) s')
                  (send_built-Quiet env conn (λ now. sub_ack now p.packet_id) s')))
      ]
    ]

reported-Sound :
    (env : Env) (conn : ConnId) (code : String) (s : Server) (r : Option Error × Server)
    → Sound s r.1
    → Sound s (reported env conn code r).1
unfolding reported
reported-Sound env conn code s (none, s') h = h
reported-Sound env conn code s (some e, s') h =
    Sound-Quiet h (send_error-Quiet env conn code (error_text e) s')

ponged-Quiet : (s : Server) (r : Option Error × Server) → Quiet s r.1 → Quiet s (ponged r).1
unfolding ponged
ponged-Quiet s (none, s') q =
    Quiet-trans q (count-Quiet (λ m. record m { packets_out = m.packets_out + 1 }) s' refl)
ponged-Quiet s (some e, s') q = q

mark-offline :
    (fault : Option Error) (id : String) (t : Tables)
    → (mark_message_acknowledged fault id t).1.offline_messages ≡ t.offline_messages
unfolding mark_message_acknowledged
mark-offline fault id t = ground arith

marked-Quiet : (env : Env) (id : String) (s : Server) → Quiet s (marked env id s)
unfolding marked
marked-Quiet env id s = record {
  sessions = refl;
  subscriptions = refl;
  active = refl;
  keyed = subst IsKeyed (sym (mark-offline (env.db_fault s.calls) id s.tables));
}

acked-Quiet : (fault : Option Error) (s : Server) → Quiet s (acked fault s)
unfolding acked
acked-Quiet none s = record { sessions = refl; subscriptions = refl; active = refl; keyed = λ h. h }
acked-Quiet (some e) s = Quiet-refl s

queue_ack-Quiet : (env : Env) (id : String) (s : Server) → Quiet s (queue_ack env id s)
unfolding queue_ack Persistent.ack
queue_ack-Quiet env id s =
    let (fault, tables) = Persistent.ack (env.db_fault s.calls) id s.tables in
    let s' = record s { tables = tables; calls = s.calls + 1 } in
    let deleted : Quiet s s' = record {
      sessions = refl;
      subscriptions = refl;
      active = refl;
      keyed = delete_offline_message-IsKeyed (env.db_fault s.calls) id s.tables;
    } in
    Quiet-trans deleted (acked-Quiet fault s')

pub dispatch-Sound :
    (env : Env) (conn : ConnId) (client : String) (claims : Claims) (p : Packet) (s : Server)
    → is_some (get client s.sessions) ≡ true
    → IsValid s
    → Sound s (dispatch env conn client claims p s).1
unfolding dispatch
dispatch-Sound env conn client claims p s there h =
    let ping =
      Quiet-Sound (ponged-Quiet s (send_built env conn pong s) (send_built-Quiet env conn pong s))
        h in
    let subscribe =
      reported-Sound env conn "SUBSCRIBE_FAILED" s (handle_subscribe env conn client claims p s)
        (handle_subscribe-Sound env conn client claims p s there h) in
    let publish =
      reported-Sound env conn "PUBLISH_FAILED" s (handle_publish env conn client claims p s)
        (Quiet-Sound (handle_publish-Quiet env conn client claims p s) h) in
    let ack =
      Quiet-Sound
        (Quiet-trans (marked-Quiet env p.packet_id s)
          (queue_ack-Quiet env p.packet_id (marked env p.packet_id s)))
        h in
    let other =
      Quiet-Sound
        (send_error-Quiet env conn "UNSUPPORTED_PACKET" (error_text (unsupported_packet p.type)) s)
        h in
    let P : Bool × Server → Type 0 = λ r. Sound s r.1 in
    if_both P (p.type == packet_ping) ping (
      if_both P (p.type == packet_subscribe) subscribe (
        if_both P (p.type == packet_publish) publish (
          if_both P (p.type == packet_pub_ack) ack
            (if_both P (p.type == packet_disconnect) (Quiet-Sound (Quiet-refl s) h) other))))

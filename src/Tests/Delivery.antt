-- ===== src/Tests/Delivery.antt =====
-- Routing, queueing and limiting at concrete inputs.
use mathlib.Core.List.{Memᴰ}
use carbmq_core.Base.{
  ◌+◌, ◌-◌, pos, pos_part, true, List, [], ◌∷◌, ◌++◌, none, ◌≡◌, inl, refl, arith, All, length,
}
use Prim.Native.Nat.{min}
use carbmq_core.Qtt.Packet.{Packet, Subscription}
use carbmq_core.Qtt.Topic.{match_topic}
use carbmq_core.Qtt.Topic.Matching.{match_topic_iff, Matches}
use carbmq_core.Base.Text.{split}
use carbmq_core.Broker.Session.{ConnId, get}
use carbmq_core.Broker.Subscription.{Match, Registry, list, add, match}
use carbmq_core.Broker.Subscription
use carbmq_core.Broker.Subscription.Matching.{match_of, match_sound, match_complete}
use carbmq_core.Broker.State.{send}
use carbmq_core.Base.Assoc.{lookup}
use carbmq_core.Broker.Router.{deliver_to, deliver, route_matches, route}
use carbmq_core.Broker.Router.Fanout.{SentFor}
use carbmq_core.Broker.Router.Reach.{Served, route_sends, route_reaches, matches_in}
use carbmq_core.Broker.Limiter.Windows.{Calls, calls_of, allowed_of, allowed_of_window}
use carbmq_core.Tests.Data.{env, busy, idle, command, commands}

command_fits : match_topic "device/d1/command" "device/d1/command" ≡ true
command_fits =
    (match_topic_iff "device/d1/command" "device/d1/command").1
      (unfold split in Matches.same (Matches.same (Matches.same Matches.done)))

is_listed : Memᴰ commands (list "d1" busy.subscriptions)
unfolding list Subscription.by_client lookup
is_listed = Memᴰ.head refl

route_sends_example :
    let ((delivered, _), s') = route env command busy in
    (new : List (ConnId × Packet)) × (s'.sent ≡ busy.sent ++ new)
    × (delivered ≡ length new)
    × (s'.metrics.packets_out ≡ busy.metrics.packets_out + length new)
    × All (SentFor env command busy.sessions (matches_in env command busy)) new
route_sends_example = route_sends env command busy

route_is_fine : (route env command busy).0.1 ≡ none
unfolding route route_matches Subscription.match Subscription.by_client lookup match_topic split
    deliver get deliver_to send
route_is_fine = refl

route_reaches_example : Served env command busy (route env command busy).1 (match_of "d1" commands)
route_reaches_example =
    route_reaches env command busy "d1" commands (λ k ks m. m) is_listed command_fits route_is_fine

abbrev command_match : Match
command_match = match_of "d1" commands

is_matched :
    Memᴰ command_match (Subscription.match (λ ks. ks) "device/d1/command" busy.subscriptions)
is_matched =
    match_complete (λ ks. ks) "device/d1/command" "d1" busy.subscriptions commands (λ k ks m. m)
      is_listed command_fits

match_complete_example :
    Memᴰ
      (match_of "d1" commands)
      (Subscription.match (λ ks. ks) "device/d1/command" busy.subscriptions)
match_complete_example =
    match_complete (λ ks. ks) "device/d1/command" "d1" busy.subscriptions commands (λ k ks m. m)
      is_listed command_fits

match_sound_example :
    (s : Subscription) × Memᴰ s (list "d1" busy.subscriptions)
    × (match_topic s.topic "device/d1/command" ≡ true)
    × (command_match.filter ≡ s.topic)
    × (command_match.qos ≡ s.qos)
match_sound_example =
    match_sound (λ ks. ks) "device/d1/command" busy.subscriptions command_match is_matched

abbrev later_commands : List Subscription
later_commands = (record commands { qos = pos 2 }) ∷ []

abbrev two_calls : Calls
two_calls = (12, "d1") ∷ (13, "d2") ∷ []

allowed_of_window_example :
    allowed_of "d1" ((11, "d1") ∷ two_calls) idle.limiter
    ≡ 1 + min (calls_of "d1" two_calls) (pos_part idle.limiter.limit - 1)
unfolding lookup
allowed_of_window_example =
    allowed_of_window "d1" 11 two_calls idle.limiter (inl refl) (omega arith, (omega arith, tt))

-- ===== src/Tests/Access.antt =====
-- Who gets in and what they may reach, at concrete inputs.
use carbmq_core.Base.{pos, true, false, none, ◌≡◌, ◌≢◌, ◌↔◌, refl, arith, eq_iff}
use carbmq_core.Base.Text.{◌<>◌, NoSlash, split, has_suffix}
use carbmq_core.Errors.{ok}
use carbmq_core.Qtt.Topic.{match_topic, topic_owner}
use carbmq_core.Qtt.Topic.Matching.{Matches, match_topic_iff}
use carbmq_core.Qtt.Topic.Owner.{topic_owner_namespace}
use carbmq_core.Auth.Claims.{Claims}
use carbmq_core.Auth.Acl.{can_publish, can_subscribe}
use carbmq_core.Auth.Acl.Isolation.{
  can_publish-topic_owner, can_subscribe-match_topic, wildcard_device_reads_all,
}
use carbmq_core.Auth.Jwt.{parse, issue_device_token, issue_token, issued_claims}
use carbmq_core.Auth.Jwt.RoundTrip.{parse-issue_device_token}
use carbmq_core.Tests.Data.{device_claims, toy_lib, toy_signs, service}

d1-NoSlash : NoSlash "d1"
d1-NoSlash = (omega arith, (omega arith, tt))

device_ne_admin : device_claims.role ≢ "admin"
device_ne_admin = ground (arith, eq_iff "device" "admin")

d1_ne_hash : device_claims.device_id ≢ "#"
d1_ne_hash = ground (arith, eq_iff "d1" "#")

d1_ne_plus : device_claims.device_id ≢ "+"
d1_ne_plus = ground (arith, eq_iff "d1" "+")

may_publish : can_publish device_claims "device/d1/telemetry" ≡ none
unfolding can_publish has_suffix
may_publish = refl

may_subscribe : can_subscribe device_claims "device/d1/command" ≡ none
unfolding can_subscribe
may_subscribe = refl

can_publish-topic_owner_example :
    (device_claims.role ≡ "device")
    × (topic_owner "device/d1/telemetry" ≡ "d1")
    × (has_suffix "device/d1/telemetry" "/command" ≡ false)
can_publish-topic_owner_example =
    can_publish-topic_owner device_claims "device/d1/telemetry" device_ne_admin d1-NoSlash
      may_publish

same_topic : match_topic "device/d1/command" "device/d1/command" ≡ true
same_topic =
    (match_topic_iff "device/d1/command" "device/d1/command").1
      (unfold split in Matches.same (Matches.same (Matches.same Matches.done)))

can_subscribe-match_topic_example : "device/d1/command" ≡ "device/" <> "d1" <> "/command"
can_subscribe-match_topic_example =
    can_subscribe-match_topic device_claims "device/d1/command" "device/d1/command" device_ne_admin
      d1-NoSlash d1_ne_hash d1_ne_plus may_subscribe same_topic

abbrev wildcard_claims : Claims
wildcard_claims = record device_claims { device_id = "+" }

wildcard_device_reads_all_example :
    (can_subscribe wildcard_claims "device/+/command" ≡ none)
    × (match_topic "device/+/command" ("device/" <> "d1" <> "/command") ≡ true)
wildcard_device_reads_all_example =
    wildcard_device_reads_all wildcard_claims "d1" refl refl d1-NoSlash

match_topic_iff_example :
    (match_topic "device/+/command" "device/d1/command" ≡ true)
    ↔ Matches (split "device/+/command") (split "device/d1/command")
match_topic_iff_example = match_topic_iff "device/+/command" "device/d1/command"

topic_owner_namespace_example : topic_owner ("device/" <> "d1" <> "/" <> "telemetry") ≡ "d1"
topic_owner_namespace_example = topic_owner_namespace "d1" "telemetry" d1-NoSlash

token_is_issued : issue_device_token toy_lib service 10 "d1" (pos 0) ≡ ok "token"
unfolding issue_device_token issue_token issued_claims
token_is_issued = refl

parse-issue_device_token_example :
    (c : Claims) × (parse toy_lib service 30 "token" ≡ ok c)
    × (c.client_id ≡ "d1")
    × (c.device_id ≡ "d1")
    × (c.role ≡ "device")
parse-issue_device_token_example =
    parse-issue_device_token toy_lib service toy_signs 10 30 "d1" "token" (pos 0)
      (pos 60_000_000_000) refl token_is_issued (omega arith)

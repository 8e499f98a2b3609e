-- ===== src/Auth/Acl/Isolation.antt =====
-- A device is kept to its own part of the topics.
use carbmq_core.Base.{
  String, true, false, none, ◌≡◌, ◌≢◌, refl, arith, eq_iff, ap, ◌∙◌, sym, ◌∷◌, [], subst,
}
use carbmq_core.Base.Text.{◌<>◌, has_suffix, NoSlash, split, join}
use carbmq_core.Base.Text.Split.{join-split}
use carbmq_core.Auth.Claims.{Claims}
use carbmq_core.Auth.Acl.{can_publish, can_subscribe}
use carbmq_core.Qtt.Topic.{topic_owner, match_topic}
use carbmq_core.Qtt.Topic.Owner.{topic_owner_namespace, split_command_topic, join_command_topic}
use carbmq_core.Qtt.Topic.Matching.{Matches, Matches-part_inv, Matches-nil_inv, match_topic_iff}
use text.Mathlib.Text.{starts_with}
use text.Mathlib.TextEquality.{starts_with_iff}
use text.Mathlib.TextLemmas.{append_assoc}

-- what an admitted publish says
can_publish_device :
    (c : Claims) (topic : String)
    → c.role ≢ "admin"
    → can_publish c topic ≡ none
    → (c.role ≡ "device")
      × (starts_with topic ("device/" <> c.device_id <> "/") ≡ true)
      × (has_suffix topic "/command" ≡ false)
unfolding can_publish
can_publish_device c topic h e = ground (arith, eq_iff c.role "admin", eq_iff c.role "device")

owner_of_namespace :
    (id topic : String)
    → NoSlash id
    → starts_with topic ("device/" <> id <> "/") ≡ true
    → topic_owner topic ≡ id
owner_of_namespace id topic n starts =
    let (rest, e) = (starts_with_iff topic ("device/" <> id <> "/")).0 starts in
    ap topic_owner (sym e ∙ (simp append_assoc)) ∙ topic_owner_namespace id rest n

-- A client that is no admin and may publish to a topic is a device, and the topic belongs to that
-- device, whose id holds no slash; nor is the topic a command topic.
pub can_publish-topic_owner :
    (c : Claims) (topic : String)
    → c.role ≢ "admin"
    → NoSlash c.device_id
    → can_publish c topic ≡ none
    → (c.role ≡ "device")
      × (topic_owner topic ≡ c.device_id)
      × (has_suffix topic "/command" ≡ false)
can_publish-topic_owner c topic h n e =
    let (device, starts, no_command) = can_publish_device c topic h e in
    (device, owner_of_namespace c.device_id topic n starts, no_command)

-- Only a topic with the parts of a device's command topic matches it, unless the id is a wildcard.
command_filter-Matches :
    (id topic : String)
    → NoSlash id
    → id ≢ "#"
    → id ≢ "+"
    → Matches ("device" ∷ id ∷ "command" ∷ []) (split topic)
    → topic ≡ "device/" <> id <> "/command"
command_filter-Matches id topic n h p m =
    let (us, e, m') =
      Matches-part_inv m "device" _ refl (ground (arith, eq_iff "device" "#"))
        (ground (arith, eq_iff "device" "+")) in
    let (vs, e', m'') = Matches-part_inv m' id _ refl h p in
    let (ws, e'', m3) =
      Matches-part_inv m'' "command" _ refl (ground (arith, eq_iff "command" "#"))
        (ground (arith, eq_iff "command" "+")) in
    let parts : split topic ≡ "device" ∷ id ∷ "command" ∷ [] =
      cc (e, e', e'', Matches-nil_inv m3 refl) in
    sym (join-split topic) ∙ ap join parts ∙ join_command_topic id

can_subscribe_device :
    (c : Claims) (filter : String)
    → c.role ≢ "admin"
    → can_subscribe c filter ≡ none
    → (c.role ≡ "device") × (filter ≡ "device/" <> c.device_id <> "/command")
unfolding can_subscribe
can_subscribe_device c filter h e = ground (
  arith,
  eq_iff c.role "admin",
  eq_iff c.role "device",
  eq_iff filter ("device/" <> c.device_id <> "/command"),
)

-- A client that is no admin, and whose device id is no wildcard and holds no slash, receives through
-- a filter that it may subscribe to nothing but the topic of its own commands.
pub can_subscribe-match_topic :
    (c : Claims) (filter topic : String)
    → c.role ≢ "admin"
    → NoSlash c.device_id
    → c.device_id ≢ "#"
    → c.device_id ≢ "+"
    → can_subscribe c filter ≡ none
    → match_topic filter topic ≡ true
    → topic ≡ "device/" <> c.device_id <> "/command"
can_subscribe-match_topic c filter topic r n h p e m =
    let (_, same) = can_subscribe_device c filter r e in
    let parts = ap split same ∙ split_command_topic c.device_id n in
    command_filter-Matches c.device_id topic n h p
      (subst (λ fs. Matches fs (split topic)) parts ((match_topic_iff filter topic).0 m))

-- A device whose id is the wildcard `+` may subscribe to a filter that matches the command topic of
-- every device whose id holds no slash.
pub wildcard_device_reads_all :
    (c : Claims) (id : String)
    → c.role ≡ "device"
    → c.device_id ≡ "+"
    → NoSlash id
    → (can_subscribe c "device/+/command" ≡ none)
      × (match_topic "device/+/command" ("device/" <> id <> "/command") ≡ true)
unfolding can_subscribe
wildcard_device_reads_all c id r d n = (
  rw (r, d) refl,
  (match_topic_iff "device/+/command" _).1 (
      subst (λ ps. Matches (split "device/+/command") ps) (sym (split_command_topic id n))
        (unfold split in Matches.same (Matches.any (Matches.same Matches.done)))),
)

-- ===== src/Qtt/Topic/Owner.antt =====
-- `TopicOwner`: the device in a topic of its namespace.
use text.Mathlib.TextLemmas.{append_assoc}
use carbmq_core.Base.{sym, String, ◌≡◌, refl, ◌∙◌, ap}
use carbmq_core.Base.Text.{◌<>◌, split, join, NoSlash}
use carbmq_core.Base.Text.Split.{split-append_slash}
use carbmq_core.Qtt.Topic.{topic_owner}
use carbmq_core.Base.{[], ◌∷◌, arith}

-- The namespace of a device splits into its two parts and the rest.
split_namespace :
    (id rest : String)
    → NoSlash id
    → split ("device/" <> id <> "/" <> rest) ≡ "device" ∷ id ∷ split rest
split_namespace id rest h =
    ap split (append_assoc "device" "/" (id <> "/" <> rest))
    ∙ split-append_slash "device" (id <> "/" <> rest) (omega arith)
    ∙ ap (◌∷◌ "device") (split-append_slash id rest h)

-- The owner of a topic below `device/{id}/` is the device `id`, if `id` holds no slash.
pub topic_owner_namespace :
    (id rest : String) → NoSlash id → topic_owner ("device/" <> id <> "/" <> rest) ≡ id
unfolding topic_owner
topic_owner_namespace id rest h = rw (split_namespace id rest h) refl

-- The command topic of a device has three parts.
pub split_command_topic :
    (id : String)
    → NoSlash id
    → split ("device/" <> id <> "/command") ≡ "device" ∷ id ∷ "command" ∷ []
split_command_topic id h =
    split_namespace id "command" h ∙ ap (λ ps. "device" ∷ id ∷ ps) (unfold split in refl)

-- A topic with those three parts is that command topic.
pub join_command_topic :
    (id : String) → join ("device" ∷ id ∷ "command" ∷ []) ≡ "device/" <> id <> "/command"
unfolding join
join_command_topic id = sym (append_assoc "device" "/" (id <> "/command"))

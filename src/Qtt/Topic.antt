-- ===== src/Qtt/Topic.antt =====
-- pkg/qtt/utils/helpers.go: the topic functions.
pub mod Matching
pub mod Owner
use carbmq_core.Base.{
  ℕ, ◌+◌, String, Bool, true, false, List, [], ◌∷◌, Option, none, some, ◌==◌, nat_eq, length,
  get_elem?, if◌then◌else◌,
}
use carbmq_core.Base.Text.{split}

-- `TopicOwner`
owner_of_parts : List String → String
owner_of_parts [] = ""
owner_of_parts (p ∷ []) = ""
owner_of_parts (p ∷ q ∷ ps) = if p == "device" then q else ""

unfoldable pub topic_owner : String → String
unfolding owner_of_parts
topic_owner topic = owner_of_parts (split topic)

-- The loop of `MatchTopic` at `idx`: `rest` holds the filter parts from `idx` on.
match_from : (filter_parts topic_parts : List String) → ℕ → List String → Bool
match_from filter_parts topic_parts idx [] = nat_eq (length filter_parts) (length topic_parts)
match_from filter_parts topic_parts idx (part ∷ rest) =
    let continue = match_from filter_parts topic_parts (idx + 1) rest in
    elim (get_elem? topic_parts idx) [
      | none ↦ part == "#"
      | some t ↦
          if part == "#"
          then true
          else if part == "+"
          then continue
          else if part == t
          then continue
          else false
    ]

unfoldable pub match_topic : (filter topic : String) → Bool
unfolding match_from
match_topic filter topic = match_from (split filter) (split topic) 0 (split filter)

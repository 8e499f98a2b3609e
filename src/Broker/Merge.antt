-- ===== src/Broker/Merge.antt =====
-- The loop that session/store.go and subscription/registry.go share: a subscription to a topic that
-- is there replaces it, any other is appended.
use carbmq_core.Base.{
  String, List, [], ◌∷◌, ◌++◌, Option, none, some, ◌==◌, if◌then◌else◌, ◌≡◌, ◌≢◌, refl, arith,
  eq_iff, str_eq-cases, inl, inr, subst, ℤ,
}
use carbmq_core.Qtt.Packet.{Subscription}

-- The inner loop, with its `replaced` flag: the list unchanged means that none was replaced.
unfoldable replace : Subscription → List Subscription → Option (List Subscription)
replace next [] = none
replace next (s ∷ subs) =
    let rest = replace next subs in
    if s.topic == next.topic
    then some (next ∷ subs)
    else elim rest [ none ↦ none | some subs' ↦ some (s ∷ subs') ]

unfoldable merge_one : List Subscription → Subscription → List Subscription
unfolding replace
merge_one existing next = elim (replace next existing) [
  | none ↦ existing ++ next ∷ []
  | some replaced ↦ replaced
]

unfoldable pub merge : List Subscription → List Subscription → List Subscription
unfolding merge_one
merge existing [] = existing
merge existing (next ∷ subs) = merge (merge_one existing next) subs

-- The quality of service of a topic in a list of subscriptions.
unfoldable pub qos_of : String → List Subscription → Option ℤ
qos_of topic [] = none
qos_of topic (s ∷ subs) = if s.topic == topic then some s.qos else qos_of topic subs

merge_one-cons_self :
    (s next : Subscription) (subs : List Subscription)
    → s.topic ≡ next.topic
    → merge_one (s ∷ subs) next ≡ next ∷ subs
unfolding merge_one
merge_one-cons_self s next subs e = ground (arith, eq_iff s.topic next.topic)

merge_one-cons_ne :
    (s next : Subscription) (subs : List Subscription)
    → s.topic ≢ next.topic
    → merge_one (s ∷ subs) next ≡ s ∷ merge_one subs next
unfolding merge_one
merge_one-cons_ne s next subs e = ground (arith, eq_iff s.topic next.topic)

qos_of-merge_one :
    (topic : String) (existing : List Subscription) (next : Subscription)
    → qos_of topic (merge_one existing next)
      ≡ (if next.topic == topic then some next.qos else qos_of topic existing)
unfolding qos_of
qos_of-merge_one topic [] next = unfold merge_one in refl
qos_of-merge_one topic (s ∷ subs) next = elim (str_eq-cases s.topic next.topic) [
  | inl (_, e) ↦
      rw (merge_one-cons_self s next subs e)
        (ground (arith, eq_iff s.topic topic, eq_iff next.topic topic))
  | inr (_, n) ↦ rw (merge_one-cons_ne s next subs n) (
      ground
        (arith, eq_iff s.topic topic, eq_iff next.topic topic, qos_of-merge_one topic subs next))
]

-- the last of the subscriptions to a topic
unfoldable pub last_qos : String → List Subscription → Option ℤ → Option ℤ
last_qos topic [] found = found
last_qos topic (s ∷ subs) found =
    last_qos topic subs (if s.topic == topic then some s.qos else found)

-- After a merge each topic has the quality of service that was asked for last, and a topic that was
-- not asked for keeps its own.
pub qos_of-merge :
    (topic : String) (existing subs : List Subscription)
    → qos_of topic (merge existing subs) ≡ last_qos topic subs (qos_of topic existing)
unfolding merge last_qos
qos_of-merge topic existing [] = refl
qos_of-merge topic existing (s ∷ subs) =
    rw (qos_of-merge topic (merge_one existing s) subs)
      (rw (qos_of-merge_one topic existing s) refl)

-- No two subscriptions of a list are to one topic.
abbrev pub IsDistinct : List Subscription → Type 0
IsDistinct [] = Unit
IsDistinct (s ∷ subs) = (qos_of s.topic subs ≡ none) × IsDistinct subs

merge_one-IsDistinct :
    (existing : List Subscription) (next : Subscription)
    → IsDistinct existing
    → IsDistinct (merge_one existing next)
merge_one-IsDistinct [] next h = unfold merge_one qos_of in (refl, tt)
merge_one-IsDistinct (s ∷ subs) next h = elim (str_eq-cases s.topic next.topic) [
  | inl (_, e) ↦
      rw (merge_one-cons_self s next subs e) (subst (λ t. qos_of t subs ≡ none) e h.0, h.1)
  | inr (_, n) ↦ rw (merge_one-cons_ne s next subs n) (
    ground (arith, qos_of-merge_one s.topic subs next, eq_iff next.topic s.topic, h.0),
    merge_one-IsDistinct subs next h.1,
  )
]

-- Merging keeps the topics of a list distinct, whatever subscriptions are merged in.
pub merge-IsDistinct :
    (existing subs : List Subscription) → IsDistinct existing → IsDistinct (merge existing subs)
unfolding merge
merge-IsDistinct existing [] h = h
merge-IsDistinct existing (s ∷ subs) h =
    merge-IsDistinct (merge_one existing s) subs (merge_one-IsDistinct existing s h)

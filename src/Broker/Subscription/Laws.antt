-- ===== src/Broker/Subscription/Laws.antt =====
-- What `Add` does to the filters of every client.
use carbmq_core.Base.{String, List, if◌then◌else◌, ◌≡◌, arith, ◌⊎◌, eq_iff, eq_refl, ◌==◌}
use carbmq_core.Base.Assoc.{lookup-insert}
use carbmq_core.Qtt.Packet.{Subscription}
use carbmq_core.Broker.Merge.{merge, qos_of, last_qos, qos_of-merge, IsDistinct, merge-IsDistinct}
use carbmq_core.Broker.Subscription.{Registry, by_client, add, list}

pub list-add :
    (client other : String) (subs : List Subscription) (registry : Registry)
    → list other (add client subs registry)
      ≡ (if client == other then merge (list other registry) subs else list other registry)
unfolding list add by_client
list-add client other subs registry = ground (
  arith,
  lookup-insert client other (merge (by_client client registry) subs) registry,
  eq_iff client other,
)

-- After `Add` each topic of the client has the quality of service that was asked for last, a topic
-- that was not asked for keeps its own, and nobody else's filters change.
qos_of-list-add :
    (client other topic : String) (subs : List Subscription) (registry : Registry)
    → (qos_of topic (list client (add client subs registry))
        ≡ last_qos topic subs (qos_of topic (list client registry)))
      × ((other ≡ client) ⊎ (list other (add client subs registry) ≡ list other registry))
qos_of-list-add client other topic subs registry = (
  ground (
    arith,
    list-add client client subs registry,
    eq_refl client,
    qos_of-merge topic (list client registry) subs,
  ),
  ground (arith, list-add client other subs registry, eq_iff client other),
)

-- Every client's filters are to distinct topics, and `Add` keeps them so.
pub add-IsDistinct :
    (client other : String) (subs : List Subscription) (registry : Registry)
    → ((c : String) → IsDistinct (list c registry))
    → IsDistinct (list other (add client subs registry))
add-IsDistinct client other subs registry h = ground (
  arith,
  list-add client other subs registry,
  h other,
  merge-IsDistinct (list other registry) subs,
)

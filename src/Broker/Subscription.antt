-- ===== src/Broker/Subscription.antt =====
-- internal/broker/subscription/registry.go: the topic filters, by client.
pub mod Matching
pub mod Laws
use carbmq_core.Base.{
  ℤ, String, Bool, true, false, List, [], ◌∷◌, ◌++◌, Option, none, some, if◌then◌else◌,
}
use carbmq_core.Base.Assoc.{lookup, insert, keys}
use carbmq_core.Qtt.Packet.{Subscription}
use carbmq_core.Qtt.Topic.{match_topic}
use carbmq_core.Broker.Merge.{merge}

pub record Match : Type 0 where
  pub client_id : String
  pub filter : String
  pub qos : ℤ

-- `Registry`, the map under the mutex. Each operation below holds the mutex throughout.
abbrev pub Registry : Type 0
Registry = List (String × List Subscription)

-- `r.byClient[clientID]`, which is `nil` for a missing key.
unfoldable pub by_client : String → Registry → List Subscription
by_client client_id registry = elim (lookup client_id registry) [ none ↦ [] | some subs ↦ subs ]

-- `Registry.Add`
unfoldable pub add : String → List Subscription → Registry → Registry
add client_id subs registry = insert client_id (merge (by_client client_id registry) subs) registry

-- `Registry.List`: a copy.
unfoldable pub list : String → Registry → List Subscription
list client_id registry = [] ++ by_client client_id registry

-- the inner loop of `Match`
unfoldable pub match_client : String → String → List Subscription → List Match
match_client topic client_id [] = []
match_client topic client_id (s ∷ subs) =
    let rest = match_client topic client_id subs in
    if match_topic s.topic topic
    then record { client_id = client_id; filter = s.topic; qos = s.qos } ∷ rest
    else rest

-- the outer loop, over the clients in the order in which `range` visits them
unfoldable pub match_clients : String → Registry → List String → List Match
unfolding match_client
match_clients topic registry [] = []
match_clients topic registry (client ∷ clients) =
    match_client topic client (by_client client registry) ++ match_clients topic registry clients

-- `Registry.Match`. Go's `range` over a map visits the keys in an order of its own: `order`.
unfoldable pub match : (order : List String → List String) → String → Registry → List Match
unfolding match_clients
match order topic registry = match_clients topic registry (order (keys registry))

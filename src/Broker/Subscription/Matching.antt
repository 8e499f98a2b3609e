-- ===== src/Broker/Subscription/Matching.antt =====
-- `Match` finds exactly the filters that match, whatever order the map is visited in.
use mathlib.Core.List.{Memᴰ}
use carbmq_core.Base.{
  String, true, false, List, [], ◌∷◌, ◌++◌, ◌≡◌, refl, ap, sym, ◌⊎◌, inl, inr, arith, ◌==◌,
  Bool-cases, str_eq-cases, subst, ◌∙◌,
}
use carbmq_core.Base.Assoc.{keys, lookup}
use carbmq_core.Qtt.Packet.{Subscription}
use carbmq_core.Qtt.Topic.{match_topic}
use carbmq_core.Broker.Subscription.{
  Match, Registry, by_client, match_client, match_clients, match, list,
}

module _ {A : Type 0} where
  Memᴰ-append_left : {a : A} (xs ys : List A) → Memᴰ a xs → Memᴰ a (xs ++ ys)
  Memᴰ-append_left [] ys m = elim m [ ]
  Memᴰ-append_left (x ∷ xs) ys (Memᴰ.head e) = Memᴰ.head e
  Memᴰ-append_left (x ∷ xs) ys (Memᴰ.tail m) = Memᴰ.tail (Memᴰ-append_left xs ys m)

  Memᴰ-append_right : {a : A} (xs ys : List A) → Memᴰ a ys → Memᴰ a (xs ++ ys)
  Memᴰ-append_right [] ys m = m
  Memᴰ-append_right (x ∷ xs) ys m = Memᴰ.tail (Memᴰ-append_right xs ys m)

  Memᴰ-append_inv : {a : A} (xs ys : List A) → Memᴰ a (xs ++ ys) → Memᴰ a xs ⊎ Memᴰ a ys
  Memᴰ-append_inv [] ys m = inr m
  Memᴰ-append_inv (x ∷ xs) ys (Memᴰ.head e) = inl (Memᴰ.head e)
  Memᴰ-append_inv (x ∷ xs) ys (Memᴰ.tail m) = elim (Memᴰ-append_inv xs ys m) [
    | inl l ↦ inl (Memᴰ.tail l)
    | inr r ↦ inr r
  ]

  Memᴰ-cons_inv : {a x : A} {xs : List A} → Memᴰ a (x ∷ xs) → (a ≡ x) ⊎ Memᴰ a xs
  Memᴰ-cons_inv (Memᴰ.head e) = inl e
  Memᴰ-cons_inv (Memᴰ.tail m) = inr m

-- the match that a subscription of a client makes
abbrev pub match_of : String → Subscription → Match
match_of client_id s = record { client_id = client_id; filter = s.topic; qos = s.qos }

-- `s` is one of `subs`, matches the topic and makes the match `m` of the client.
abbrev MadeBy : String → List Subscription → Match → Subscription → Type 0
MadeBy topic subs m s =
    Memᴰ s subs × (match_topic s.topic topic ≡ true) × (m ≡ match_of m.client_id s)

MadeBy-cons :
    (topic : String) {m : Match} (s : Subscription) (subs : List Subscription)
    → (t : Subscription) × MadeBy topic subs m t
    → (t : Subscription) × MadeBy topic (s ∷ subs) m t
MadeBy-cons topic s subs (t, (listed, fits, e)) = (t, (Memᴰ.tail listed, fits, e))

match_client_sound :
    (topic client : String) (subs : List Subscription) {m : Match}
    → Memᴰ m (match_client topic client subs)
    → (m.client_id ≡ client) × ((s : Subscription) × MadeBy topic subs m s)
unfolding match_client
match_client_sound topic client [] h = elim h [ ]
match_client_sound topic client (s ∷ subs) {m} h = elim (Bool-cases (match_topic s.topic topic)) [
  | inl fits ↦ elim (Memᴰ-cons_inv (rw fits at h)) [
    | inl e ↦
        let same : m.client_id ≡ client = ap (λ (x : Match). x.client_id) e in
        (same, (s, (Memᴰ.head refl, fits, e ∙ ap (λ c. match_of c s) (sym same))))
    | inr later ↦
        let (same, made) = match_client_sound topic client subs later in
        (same, MadeBy-cons topic s subs made)
  ]
  | inr misses ↦
      let (same, made) = match_client_sound topic client subs (rw misses at h) in
      (same, MadeBy-cons topic s subs made)
]

match_client_complete :
    (topic client : String) (subs : List Subscription) {s : Subscription}
    → Memᴰ s subs
    → match_topic s.topic topic ≡ true
    → Memᴰ (match_of client s) (match_client topic client subs)
unfolding match_client
match_client_complete topic client [] h e = elim h [ ]
match_client_complete topic client (x ∷ subs) (Memᴰ.head same) e =
    let fits : match_topic x.topic topic ≡ true =
      ap (λ (s : Subscription). match_topic s.topic topic) (sym same) ∙ e in
    rw fits (Memᴰ.head (ap (match_of client) same))
match_client_complete topic client (x ∷ subs) (Memᴰ.tail h) e =
    let later = match_client_complete topic client subs h e in
    elim (Bool-cases (match_topic x.topic topic)) [
      | inl fits ↦ rw fits (Memᴰ.tail later)
      | inr misses ↦ rw misses later
    ]

match_clients_sound :
    (topic : String) (registry : Registry) (clients : List String) {m : Match}
    → Memᴰ m (match_clients topic registry clients)
    → (s : Subscription) × MadeBy topic (by_client m.client_id registry) m s
unfolding match_clients
match_clients_sound topic registry [] h = elim h [ ]
match_clients_sound topic registry (c ∷ clients) {m} h =
    elim (Memᴰ-append_inv (match_client topic c (by_client c registry)) _ h) [
      | inl here ↦
          let (same, made) = match_client_sound topic c (by_client c registry) here in
          subst (λ k. (s : Subscription) × MadeBy topic (by_client k registry) m s) (sym same) made
      | inr later ↦ match_clients_sound topic registry clients later
    ]

match_clients_complete :
    (topic client : String) (registry : Registry) (clients : List String) {s : Subscription}
    → Memᴰ client clients
    → Memᴰ s (by_client client registry)
    → match_topic s.topic topic ≡ true
    → Memᴰ (match_of client s) (match_clients topic registry clients)
unfolding match_clients
match_clients_complete topic client registry [] c h e = elim c [ ]
match_clients_complete topic client registry (k ∷ clients) {s} (Memᴰ.head same) h e =
    Memᴰ-append_left (match_client topic k (by_client k registry)) _ (
      subst (λ j. Memᴰ (match_of client s) (match_client topic j (by_client j registry))) same
        (match_client_complete topic client (by_client client registry) h e))
match_clients_complete topic client registry (k ∷ clients) (Memᴰ.tail c) h e =
    Memᴰ-append_right (match_client topic k (by_client k registry)) _
      (match_clients_complete topic client registry clients c h e)

by_client-cons_ne :
    (k client : String) (subs : List Subscription) (registry : Registry)
    → (k == client) ≡ false
    → by_client client ((k, subs) ∷ registry) ≡ by_client client registry
unfolding by_client lookup
by_client-cons_ne k client subs registry h = ground arith

-- a client with a filter is a key of the map
has_filters-key :
    (client : String) (registry : Registry) {s : Subscription}
    → Memᴰ s (by_client client registry)
    → Memᴰ client (keys registry)
unfolding by_client lookup
has_filters-key client [] h = elim h [ ]
has_filters-key client ((k, subs) ∷ registry) {s} h = elim (str_eq-cases k client) [
  | inl (_, e) ↦ Memᴰ.head (sym e)
  | inr (other, _) ↦ Memᴰ.tail (
      has_filters-key client registry
        (subst (λ l. Memᴰ s l) (by_client-cons_ne k client subs registry other) h))
]

-- Whatever order the map is visited in, each match is made by a filter of its client that matches
-- the topic, with the quality of service of that filter.
pub match_sound :
    (order : List String → List String) (topic : String) (registry : Registry) (m : Match)
    → Memᴰ m (match order topic registry)
    → (s : Subscription) × Memᴰ s (list m.client_id registry)
      × (match_topic s.topic topic ≡ true)
      × (m.filter ≡ s.topic)
      × (m.qos ≡ s.qos)
unfolding match list
match_sound order topic registry m h =
    let (s, (listed, fits, e)) = match_clients_sound topic registry (order (keys registry)) h in
    (s, listed, fits, ap (λ (x : Match). x.filter) e, ap (λ (x : Match). x.qos) e)

-- If the visit leaves out no key, each filter of a client that matches the topic makes a match.
pub match_complete :
    (order : List String → List String) (topic client : String) (registry : Registry)
    (s : Subscription)
    → ((k : String) (ks : List String) → Memᴰ k ks → Memᴰ k (order ks))
    → Memᴰ s (list client registry)
    → match_topic s.topic topic ≡ true
    → Memᴰ (match_of client s) (match order topic registry)
unfolding match list
match_complete order topic client registry s visits h e =
    match_clients_complete topic client registry (order (keys registry))
      (visits client (keys registry) (has_filters-key client registry h)) h e

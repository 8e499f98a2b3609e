-- ===== src/Queue/Memory.antt =====
-- internal/queue/memory/store.go: a queue in memory, by client.
use carbmq_core.Base.{
  String, List, [], ◌∷◌, ◌++◌, none, some, ◌≡◌, arith, eq_iff, ◌⊎◌, eq_refl, if◌then◌else◌, ◌==◌,
}
use mathlib.Core.List.{append-nil, append_assoc}
use carbmq_core.Base.Assoc.{lookup, insert, erase, lookup-insert, lookup-erase}
use carbmq_core.Qtt.Packet.{Packet, clone, clone_lem}

-- `Store`, the map under the mutex.
abbrev pub Store : Type 0
Store = List (String × List Packet)

-- `s.items[clientID]`, which is `nil` for a missing key.
unfoldable pub items_of : String → Store → List Packet
items_of client_id items = elim (lookup client_id items) [ none ↦ [] | some ps ↦ ps ]

-- `Enqueue`
unfoldable pub enqueue : String → Packet → Store → Store
enqueue client_id packet items =
    insert client_id (items_of client_id items ++ clone packet ∷ []) items

-- `Drain`
unfoldable drain : String → Store → List Packet × Store
drain client_id items = ([] ++ items_of client_id items, erase client_id items)

-- enqueue one packet after another
unfoldable enqueue_all : String → List Packet → Store → Store
enqueue_all client_id [] items = items
enqueue_all client_id (p ∷ ps) items = enqueue_all client_id ps (enqueue client_id p items)

items_of-enqueue :
    (client other : String) (p : Packet) (items : Store)
    → items_of other (enqueue client p items)
      ≡ (if client == other then items_of other items ++ p ∷ [] else items_of other items)
unfolding items_of enqueue
items_of-enqueue client other p items = ground (
  arith,
  clone_lem p,
  lookup-insert client other (items_of client items ++ clone p ∷ []) items,
  eq_iff client other,
)

items_of-enqueue_all :
    (client other : String) (ps : List Packet) (items : Store)
    → items_of other (enqueue_all client ps items)
      ≡ (if client == other then items_of other items ++ ps else items_of other items)
unfolding enqueue_all
items_of-enqueue_all client other [] items = ground (arith, append-nil (items_of other items))
items_of-enqueue_all client other (p ∷ ps) items = ground (
  arith,
  items_of-enqueue_all client other ps (enqueue client p items),
  items_of-enqueue client other p items,
  append_assoc (items_of other items) (p ∷ []) ps,
)

items_of-erase :
    (client other : String) (items : Store)
    → items_of other (erase client items) ≡ (if client == other then [] else items_of other items)
unfolding items_of
items_of-erase client other items = ground (arith, lookup-erase client other items)

-- Packets that were enqueued for a client are drained in their order, behind those that waited, once;
-- and other clients' packets stay.
drain-enqueue_all :
    (client other : String) (ps : List Packet) (items : Store)
    → let (drained, items') = drain client (enqueue_all client ps items) in
      (drained ≡ items_of client items ++ ps)
      × ((drain client items').0 ≡ [])
      × ((other ≡ client) ⊎ (items_of other items' ≡ items_of other items))
unfolding drain
drain-enqueue_all client other ps items =
    let filled = enqueue_all client ps items in
    (
      ground (arith, items_of-enqueue_all client client ps items, eq_refl client),
      ground (arith, items_of-erase client client filled, eq_refl client),
      ground (
        arith,
        items_of-erase client other filled,
        items_of-enqueue_all client other ps items,
        eq_iff client other,
      ),
    )

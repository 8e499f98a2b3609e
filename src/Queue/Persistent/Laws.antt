-- ===== src/Queue/Persistent/Laws.antt =====
-- What the offline queue keeps for its clients.
use mathlib.Core.List.{Memᴰ}
use carbmq_core.Base.{
  String, true, false, List, [], ◌∷◌, ◌++◌, none, map, ◌≡◌, ◌≢◌, refl, arith, ◌==◌, eq_iff, All,
  not, ap, ◌∙◌, sym, str_eq-cases, ◌⊎◌, inl, inr, All-map_pred,
}
use mathlib.Core.List.{append-nil}
use carbmq_core.Errors.{ok}
use carbmq_core.Qtt.Packet.{Packet, Time, RawMessage, zero_packet, packet_publish}
use carbmq_core.Db.Tables.{OfflineMessage, Tables, or_empty_object, where_rows, order_by}
use carbmq_core.Db.Tables.Rows.{
  where_rows-append, All-where_rows, where_rows-All, where_rows-mem, order_by-All, order_by-mem,
  mem-append_last,
}
use carbmq_core.Db.Offline.{
  has_packet, offline_row, insert_offline, enqueue_offline_message, get_offline_messages,
  delete_offline_message, sooner, scanned,
}
use carbmq_core.Db.Offline.Laws.{
  insert_offline_new, insert_offline_old, has_packet-insert_offline, delete-enqueue,
}
use carbmq_core.Queue.Persistent.{to_offline_message, enqueue, to_packet, pending, ack}

-- The packet as it is delivered later: a PUBLISH with the time at which it was queued, and without
-- the fields that no row holds; its payload is what the database gives back of the stored text.
abbrev pub as_queued : (RawMessage → RawMessage) → Time → Packet → Packet
as_queued jsonb now p = record zero_packet {
  type = packet_publish;
  packet_id = p.packet_id;
  topic = p.topic;
  qos = p.qos;
  payload = jsonb (or_empty_object p.payload);
  timestamp = now;
}

-- the rows of a client in the order of delivery
abbrev rows_for : String → Tables → List OfflineMessage
rows_for client t =
    order_by sooner (where_rows (λ (m : OfflineMessage). m.client_id == client) t.offline_messages)

-- the packets that `Pending` gives
pending_ok :
    (jsonb : RawMessage → RawMessage) (client : String) (t : Tables)
    → pending jsonb none client t ≡ ok (map to_packet (map (scanned jsonb) (rows_for client t)))
unfolding pending get_offline_messages
pending_ok jsonb client t = refl

mem-map : {A B : Type 0} (f : A → B) (xs : List A) {a : A} → Memᴰ a xs → Memᴰ (f a) (map f xs)
mem-map f [] m = elim m [ ]
mem-map f (x ∷ xs) (Memᴰ.head e) = Memᴰ.head (ap f e)
mem-map f (x ∷ xs) (Memᴰ.tail m) = Memᴰ.tail (mem-map f xs m)

rows_for-append :
    (client : String) (m : OfflineMessage) (rows : List OfflineMessage)
    → m.client_id ≡ client
    → Memᴰ m (
        order_by sooner
          (where_rows (λ (r : OfflineMessage). r.client_id == client) (rows ++ m ∷ [])))
rows_for-append client m rows same = order_by-mem sooner _ (
    where_rows-mem (λ (r : OfflineMessage). r.client_id == client) (rows ++ m ∷ [])
      (mem-append_last m rows) ((eq_iff m.client_id client).1 same))

other_rows :
    (other : String) (m : OfflineMessage) (rows : List OfflineMessage)
    → (m.client_id == other) ≡ false
    → where_rows (λ (r : OfflineMessage). r.client_id == other) (rows ++ m ∷ [])
      ≡ where_rows (λ (r : OfflineMessage). r.client_id == other) rows
other_rows other m rows ne =
    where_rows-append (λ (r : OfflineMessage). r.client_id == other) rows (m ∷ [])
    ∙ unfold where_rows in rw ne (append-nil _)

ne_of_not : (s t : String) → not (s == t) ≡ true → s ≢ t
ne_of_not s t h = ground (arith, eq_iff s t)

All-map :
    {A B : Type 0} (f : A → B) (P : A → Type 0) (Q : B → Type 0)
    → ((a : A) → P a → Q (f a))
    → (xs : List A) → All P xs
    → All Q (map f xs)
All-map f P Q h [] a = tt
All-map f P Q h (x ∷ xs) a = (h x a.0, All-map f P Q h xs a.1)

-- A packet with a new id that is enqueued for a client without a fault is among the client's pending
-- packets, as a PUBLISH with its topic and quality of service, and with the payload that the database
-- gives back for its own, or for the empty object if its own is empty; other clients' pending packets
-- stay.
pub pending-enqueue :
    (jsonb : RawMessage → RawMessage) (now : Time) (client other : String) (p : Packet) (t : Tables)
    → has_packet p.packet_id t.offline_messages ≡ false
    → let (fault, t') = enqueue none now client p t in
      (fault ≡ none)
      × ((ps : List Packet) × (pending jsonb none client t' ≡ ok ps)
          × Memᴰ (as_queued jsonb now p) ps)
      × ((other ≡ client) ⊎ (pending jsonb none other t' ≡ pending jsonb none other t))
unfolding enqueue enqueue_offline_message to_packet to_offline_message offline_row scanned
pending-enqueue jsonb now client other p t fresh =
    let row = offline_row (to_offline_message now client p) in
    let grown = insert_offline_new row t.offline_messages fresh in
    (
      refl,
      (
        _,
        pending_ok jsonb client _,
        mem-map to_packet _ {a = scanned jsonb row} (
            mem-map (scanned jsonb) _ {a = row}
              (rw grown (rows_for-append client row t.offline_messages refl))),
      ),
      elim (str_eq-cases client other) [
        | inl (_, e) ↦ inl (sym e)
        | inr (differs, _) ↦ inr (
            rw (pending_ok jsonb other) (
              rw grown (
                rw (other_rows other row t.offline_messages differs)
                  (sym (pending_ok jsonb other t)))))
      ],
    )

-- Acknowledging a packet right after it was enqueued under a new id gives the tables back.
ack-enqueue :
    (now : Time) (client : String) (p : Packet) (t : Tables)
    → has_packet p.packet_id t.offline_messages ≡ false
    → ack none p.packet_id (enqueue none now client p t).1 ≡ (none, t)
unfolding ack enqueue to_offline_message
ack-enqueue now client p t fresh = delete-enqueue (to_offline_message now client p) t fresh

-- The second of two clients for which one packet is enqueued does not get it: its `Enqueue` reports
-- no error and changes nothing.
pub enqueue_second_client :
    (now later : Time) (first second : String) (p q : Packet) (t : Tables)
    → q.packet_id ≡ p.packet_id
    → let t' = (enqueue none now first p t).1 in enqueue none later second q t' ≡ (none, t')
unfolding enqueue enqueue_offline_message to_offline_message offline_row
enqueue_second_client now later first second p q t same =
    let row = offline_row (to_offline_message now first p) in
    let rows = insert_offline row t.offline_messages in
    let there : has_packet q.packet_id rows ≡ true =
      ap (λ id. has_packet id rows) same ∙ has_packet-insert_offline row t.offline_messages in
    let kept = insert_offline_old (offline_row (to_offline_message later second q)) rows there in
    λ i. (none, record t { offline_messages = kept i })

-- After an acknowledgement no client has the packet pending, whoever acknowledged it.
pending-ack :
    (jsonb : RawMessage → RawMessage) (id client : String) (t : Tables)
    → (ps : List Packet) × (pending jsonb none client (ack none id t).1 ≡ ok ps)
      × All (λ p. p.packet_id ≢ id) ps
unfolding ack delete_offline_message to_packet scanned
pending-ack jsonb id client t =
    let test = λ (m : OfflineMessage). not (m.packet_id == id) in
    let kept = where_rows test t.offline_messages in
    let P = λ (m : OfflineMessage). m.packet_id ≢ id in
    let survive : All P kept =
      All-map_pred (λ m. test m ≡ true) P (λ m h. ne_of_not m.packet_id id h) kept
        (where_rows-All test t.offline_messages) in
    (
      _,
      pending_ok jsonb client _,
      All-map to_packet P (λ p. p.packet_id ≢ id) (λ m h. h) _
          (All-map (scanned jsonb) P P (λ m h. h) _
            (order_by-All P sooner _ (All-where_rows P (λ m. m.client_id == client) kept survive))),
    )

-- ===== src/Db/Offline/Laws.antt =====
-- The rows of `offline_messages` under the statements.
use carbmq_core.Base.{
  String, Bool, true, false, List, [], ◌∷◌, ◌++◌, ◌≡◌, refl, arith, Bool-cases, inl, inr, ◌||◌,
  ◌==◌, eq_iff, eq_refl, not, ap, Option, none, some, ◌∙◌,
}
use mathlib.Core.List.{append-nil}
use carbmq_core.Errors.{Error}
use carbmq_core.Db.Tables.{OfflineMessage, Tables, where_rows}
use carbmq_core.Db.Tables.Rows.{where_rows-append}
use carbmq_core.Db.Offline.{
  has_packet, insert_offline, offline_row, enqueue_offline_message, delete_offline_message,
}

-- The primary key: no two rows have one packet id.
abbrev pub IsKeyed : List OfflineMessage → Type 0
IsKeyed [] = Unit
IsKeyed (m ∷ rows) = (has_packet m.packet_id rows ≡ false) × IsKeyed rows

has_packet-append :
    (id : String) (rows : List OfflineMessage) (m : OfflineMessage)
    → has_packet id (rows ++ m ∷ []) ≡ (has_packet id rows || m.packet_id == id)
unfolding has_packet
has_packet-append id [] m = ground arith
has_packet-append id (r ∷ rows) m = ground (arith, has_packet-append id rows m)

append-IsKeyed :
    (rows : List OfflineMessage) (m : OfflineMessage)
    → IsKeyed rows
    → has_packet m.packet_id rows ≡ false
    → IsKeyed (rows ++ m ∷ [])
unfolding has_packet
append-IsKeyed [] m h fresh = (refl, tt)
append-IsKeyed (r ∷ rows) m h fresh = (
  ground (
    arith,
    has_packet-append r.packet_id rows m,
    eq_iff m.packet_id r.packet_id,
    eq_iff r.packet_id m.packet_id,
  ),
  append-IsKeyed rows m h.1 (ground arith),
)

insert_offline-IsKeyed :
    (m : OfflineMessage) (rows : List OfflineMessage)
    → IsKeyed rows
    → IsKeyed (insert_offline m rows)
insert_offline-IsKeyed m rows h = elim (Bool-cases (has_packet m.packet_id rows)) [
  | inl there ↦ unfold insert_offline in rw there h
  | inr fresh ↦ unfold insert_offline in rw fresh (append-IsKeyed rows m h fresh)
]

has_packet-where_rows :
    (id : String) (test : OfflineMessage → Bool) (rows : List OfflineMessage)
    → has_packet id rows ≡ false
    → has_packet id (where_rows test rows) ≡ false
unfolding has_packet where_rows
has_packet-where_rows id test [] h = refl
has_packet-where_rows id test (r ∷ rows) h = ground (arith, has_packet-where_rows id test rows)

where_rows-IsKeyed :
    (test : OfflineMessage → Bool) (rows : List OfflineMessage)
    → IsKeyed rows
    → IsKeyed (where_rows test rows)
unfolding where_rows
where_rows-IsKeyed test [] h = tt
where_rows-IsKeyed test (r ∷ rows) h = elim (Bool-cases (test r)) [
  | inl holds ↦
      rw holds (has_packet-where_rows r.packet_id test rows h.0, where_rows-IsKeyed test rows h.1)
  | inr fails ↦ rw fails (where_rows-IsKeyed test rows h.1)
]

-- Nothing but the rows of the packet is deleted.
delete_absent :
    (id : String) (rows : List OfflineMessage)
    → has_packet id rows ≡ false
    → where_rows (λ (m : OfflineMessage). not (m.packet_id == id)) rows ≡ rows
unfolding where_rows has_packet
delete_absent id [] h = refl
delete_absent id (r ∷ rows) h = ground (arith, delete_absent id rows)

delete_last :
    (m : OfflineMessage) (rows : List OfflineMessage)
    → has_packet m.packet_id rows ≡ false
    → where_rows (λ (r : OfflineMessage). not (r.packet_id == m.packet_id)) (rows ++ m ∷ []) ≡ rows
delete_last m rows fresh =
    where_rows-append (λ (r : OfflineMessage). not (r.packet_id == m.packet_id)) rows (m ∷ [])
    ∙ rw (delete_absent m.packet_id rows fresh)
        (unfold where_rows in rw (eq_refl m.packet_id) (append-nil rows))

pub insert_offline_new :
    (m : OfflineMessage) (rows : List OfflineMessage)
    → has_packet m.packet_id rows ≡ false
    → insert_offline m rows ≡ rows ++ m ∷ []
unfolding insert_offline
insert_offline_new m rows fresh = rw fresh refl

pub insert_offline_old :
    (m : OfflineMessage) (rows : List OfflineMessage)
    → has_packet m.packet_id rows ≡ true
    → insert_offline m rows ≡ rows
unfolding insert_offline
insert_offline_old m rows there = rw there refl

pub has_packet-insert_offline :
    (m : OfflineMessage) (rows : List OfflineMessage)
    → has_packet m.packet_id (insert_offline m rows) ≡ true
has_packet-insert_offline m rows = elim (Bool-cases (has_packet m.packet_id rows)) [
  | inl there ↦ rw (insert_offline_old m rows there) there
  | inr fresh ↦
      rw (insert_offline_new m rows fresh)
        (ground (arith, has_packet-append m.packet_id rows m, eq_refl m.packet_id))
]

-- A packet that has a row keeps it when another is inserted.
pub has_packet-insert_offline_mono :
    (id : String) (m : OfflineMessage) (rows : List OfflineMessage)
    → has_packet id rows ≡ true
    → has_packet id (insert_offline m rows) ≡ true
has_packet-insert_offline_mono id m rows h = elim (Bool-cases (has_packet m.packet_id rows)) [
  | inl there ↦ rw (insert_offline_old m rows there) h
  | inr fresh ↦
      rw (insert_offline_new m rows fresh) (ground (arith, has_packet-append id rows m, h))
]

-- Deleting a packet right after it was enqueued under a new id gives the tables back.
pub delete-enqueue :
    (m : OfflineMessage) (t : Tables)
    → has_packet m.packet_id t.offline_messages ≡ false
    → delete_offline_message none m.packet_id (enqueue_offline_message none m t).1 ≡ (none, t)
unfolding delete_offline_message enqueue_offline_message offline_row
delete-enqueue m t fresh =
    let rows =
      ap (where_rows (λ (r : OfflineMessage). not (r.packet_id == m.packet_id)))
        (insert_offline_new (offline_row m) t.offline_messages fresh)
      ∙ delete_last (offline_row m) t.offline_messages fresh in
    λ i. (none, record t { offline_messages = rows i })

-- The statements keep the primary key, whatever the driver answers.
pub enqueue_offline_message-IsKeyed :
    (fault : Option Error) (m : OfflineMessage) (t : Tables)
    → IsKeyed t.offline_messages
    → IsKeyed (enqueue_offline_message fault m t).1.offline_messages
unfolding enqueue_offline_message
enqueue_offline_message-IsKeyed none m t h =
    insert_offline-IsKeyed (offline_row m) t.offline_messages h
enqueue_offline_message-IsKeyed (some e) m t h = h

pub delete_offline_message-IsKeyed :
    (fault : Option Error) (id : String) (t : Tables)
    → IsKeyed t.offline_messages
    → IsKeyed (delete_offline_message fault id t).1.offline_messages
unfolding delete_offline_message
delete_offline_message-IsKeyed none id t h =
    where_rows-IsKeyed (λ (m : OfflineMessage). not (m.packet_id == id)) t.offline_messages h
delete_offline_message-IsKeyed (some e) id t h = h

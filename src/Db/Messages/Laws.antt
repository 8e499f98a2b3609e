-- ===== src/Db/Messages/Laws.antt =====
-- What the rows of `messages` keep.
use carbmq_core.Base.{
  String, true, List, [], ◌∷◌, ◌++◌, none, ◌≡◌, ◌≢◌, ◌⊎◌, inl, inr, refl, arith, ap, ◌∙◌,
  Bool-cases, eq_iff, eq_refl, All, map,
}
use carbmq_core.Db.Tables.{Message, Tables}
use carbmq_core.Db.Messages.{
  has_message, insert_message, message_row, save_message, acknowledge, mark_message_acknowledged,
}

has_message-append :
    (m : Message) (rows : List Message) → has_message m.packet_id (rows ++ m ∷ []) ≡ true
unfolding has_message
has_message-append m [] = ground (arith, eq_refl m.packet_id)
has_message-append m (r ∷ rows) = ground (arith, has_message-append m rows)

pub has_message-insert_message :
    (m : Message) (rows : List Message) → has_message m.packet_id (insert_message m rows) ≡ true
unfolding insert_message has_message
has_message-insert_message m rows = elim (Bool-cases (has_message m.packet_id rows)) [
  | inl there ↦ rw (insert_message, there) there
  | inr fresh ↦ rw (insert_message, fresh) (has_message-append m rows)
]

-- A second message with the packet id of one that was saved is not stored, whoever sent it, whatever
-- it says: `SaveMessage` reports no error and changes nothing.
pub save_message_twice :
    (m n : Message) (t : Tables)
    → n.packet_id ≡ m.packet_id
    → let t' = (save_message none m t).1 in save_message none n t' ≡ (none, t')
unfolding save_message message_row insert_message
save_message_twice m n t same =
    let rows = insert_message (message_row m) t.messages in
    let there : has_message n.packet_id rows ≡ true =
      ap (λ id. has_message id rows) same ∙ has_message-insert_message (message_row m) t.messages in
    let kept : insert_message (message_row n) rows ≡ rows = rw (insert_message, there) refl in
    λ i. (none, record t { messages = kept i })

-- After the statement every message with the packet id is acknowledged.
mark-All :
    (id : String) (rows : List Message)
    → All (λ m. (m.packet_id ≢ id) ⊎ (m.acknowledged ≡ true)) (map (acknowledge id) rows)
unfolding acknowledge
mark-All id [] = tt
mark-All id (m ∷ rows) = (ground (arith, eq_iff m.packet_id id), mark-All id rows)

-- the message with the mark set
abbrev as_acknowledged : Message → Message
as_acknowledged m = record m { acknowledged = true }

-- and nothing but the mark is changed
mark-rows :
    (id : String) (rows : List Message)
    → map as_acknowledged (map (acknowledge id) rows) ≡ map as_acknowledged rows
unfolding acknowledge
mark-rows id [] = refl
mark-rows id (m ∷ rows) = ground (arith, mark-rows id rows)

-- Without a fault `MarkMessageAcknowledged` leaves every message with the packet id acknowledged,
-- and changes no column but that one and no other table.
mark_message_acknowledged_lem :
    (id : String) (t : Tables)
    → let (fault, t') = mark_message_acknowledged none id t in
      (fault ≡ none)
      × All (λ m. (m.packet_id ≢ id) ⊎ (m.acknowledged ≡ true)) t'.messages
      × (map as_acknowledged t'.messages ≡ map as_acknowledged t.messages)
      × (t'.devices ≡ t.devices)
      × (t'.offline_messages ≡ t.offline_messages)
unfolding mark_message_acknowledged
mark_message_acknowledged_lem id t =
    (refl, mark-All id t.messages, mark-rows id t.messages, refl, refl)

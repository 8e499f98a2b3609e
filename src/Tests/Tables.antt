-- ===== src/Tests/Tables.antt =====
-- The queues and the tables at concrete inputs.
use mathlib.Core.List.{Memᴰ}
use carbmq_core.Base.{pos, String, false, List, [], ◌∷◌, none, ◌≡◌, ◌≢◌, ◌⊎◌, refl, arith, eq_iff}
use carbmq_core.Errors.{ok}
use carbmq_core.Qtt.Packet.{Packet, RawMessage}
use carbmq_core.Db.Tables.{Json, Device, OfflineMessage, Tables}
use carbmq_core.Db.Messages.{save_message}
use carbmq_core.Db.Messages.Laws.{save_message_twice}
use carbmq_core.Db.Offline.{has_packet}
use carbmq_core.Queue.Persistent.{enqueue, pending}
use carbmq_core.Queue.Persistent.Laws.{as_queued, pending-enqueue, enqueue_second_client}
use carbmq_core.Tests.Data.{command, no_rows, hello}

is_new : has_packet command.packet_id no_rows.offline_messages ≡ false
unfolding has_packet
is_new = refl

-- a database that puts a space in front of what it gives back
abbrev spaced : RawMessage → RawMessage
spaced b = b' ' ∷ b

pending-enqueue_example :
    let (fault, t') = enqueue none 11 "d1" command no_rows in
    (fault ≡ none)
    × ((ps : List Packet) × (pending spaced none "d1" t' ≡ ok ps)
        × Memᴰ (as_queued spaced 11 command) ps)
    × ((◌≡◌ {A = String} "d2" "d1")
        ⊎ (pending spaced none "d2" t' ≡ pending spaced none "d2" no_rows))
pending-enqueue_example = pending-enqueue spaced 11 "d1" "d2" command no_rows is_new

enqueue_second_client_example :
    let t' = (enqueue none 11 "d1" command no_rows).1 in
    enqueue none 12 "d2" command t' ≡ (none, t')
enqueue_second_client_example = enqueue_second_client 11 12 "d1" "d2" command command no_rows refl

abbrev row : OfflineMessage
row = record {
  packet_id = "p1";
  client_id = "d1";
  topic = "device/d1/command";
  qos = pos 1;
  payload = [];
  enqueued_at = 11;
  available_at = 11;
}

abbrev one_row : Tables
one_row = record no_rows { offline_messages = row ∷ [] }

save_message_twice_example :
    let t' = (save_message none hello no_rows).1 in
    save_message none (record hello { topic = "device/d1/other" }) t' ≡ (none, t')
save_message_twice_example =
    save_message_twice hello (record hello { topic = "device/d1/other" }) no_rows refl

abbrev old_device : Device
old_device = record { id = "d1"; name = "old"; metadata = Json.null; created_at = 5 }

abbrev with_device : Tables
with_device = record no_rows { devices = old_device ∷ [] }

d1_given : ◌≢◌ {A = String} "d1" ""
d1_given = ground (arith, eq_iff "d1" "")

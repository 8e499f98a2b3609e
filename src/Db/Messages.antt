-- ===== src/Db/Messages.antt =====
-- The statements on `messages` in api/db/store.go.
pub mod Laws
use carbmq_core.Base.{
  ℕ, ℤ, pos, pos_part, leb_ℤ, String, Bool, true, false, ◌||◌, List, [], ◌∷◌, ◌++◌, Option, none,
  some, if◌then◌else◌, ◌==◌, leb, map, take,
}
use carbmq_core.Base.Text.{◌<>◌}
use carbmq_core.Errors.{
  Error, Result, save_message as save_failed, mark_acknowledged, query_messages,
}
use carbmq_core.Db.Tables.{Message, Tables, or_empty_object, where_rows, order_by, unless_fault}
use carbmq_core.Db.Like.{like}

-- The row that is inserted: an empty payload is stored as `{}`.
unfoldable pub message_row : Message → Message
message_row m = record m { payload = or_empty_object m.payload }

unfoldable pub has_message : String → List Message → Bool
has_message packet_id [] = false
has_message packet_id (m ∷ rows) = m.packet_id == packet_id || has_message packet_id rows

-- `INSERT … ON CONFLICT (packet_id) DO NOTHING`
unfoldable pub insert_message : Message → List Message → List Message
insert_message m rows = if has_message m.packet_id rows then rows else rows ++ m ∷ []

-- `SaveMessage`
unfoldable pub save_message : Option Error → Message → Tables → Option Error × Tables
save_message none m t = (none, record t { messages = insert_message (message_row m) t.messages })
save_message (some e) m t = (some (save_failed e), t)

acknowledge : String → Message → Message
acknowledge packet_id m = if m.packet_id == packet_id then record m { acknowledged = true } else m

-- `MarkMessageAcknowledged`
unfoldable pub mark_message_acknowledged : Option Error → String → Tables → Option Error × Tables
unfolding acknowledge
mark_message_acknowledged none packet_id t =
    (none, record t { messages = map (acknowledge packet_id) t.messages })
mark_message_acknowledged (some e) packet_id t = (some (mark_acknowledged e), t)

-- `ORDER BY timestamp DESC`
abbrev pub newer : Message → Message → Bool
newer a b = leb b.timestamp a.timestamp

-- `limit`, or `fallback` where it is not positive
unfoldable pub effective_limit : ℤ → ℕ → ℕ
effective_limit limit fallback = if leb_ℤ limit (pos 0) then fallback else pos_part limit

-- the argument of `LIKE`
unfoldable pub telemetry_pattern : String → String
telemetry_pattern device_id = "device/" <> device_id <> "/telemetry%"

-- `GetTelemetry`
unfoldable pub get_telemetry : Option Error → String → ℤ → Tables → Result (List Message)
get_telemetry fault device_id limit t = unless_fault fault query_messages (
    take (effective_limit limit 50)
      (order_by newer (where_rows (λ m. like (telemetry_pattern device_id) m.topic) t.messages)))

-- `ListMessages`
unfoldable pub list_messages : Option Error → ℤ → Tables → Result (List Message)
list_messages fault limit t =
    unless_fault fault query_messages (take (effective_limit limit 100) (order_by newer t.messages))

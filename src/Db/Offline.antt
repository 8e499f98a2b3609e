-- ===== src/Db/Offline.antt =====
-- The statements on `offline_messages` in api/db/store.go.
pub mod Laws
use carbmq_core.Base.{
  String, Bool, true, false, ◌||◌, List, [], ◌∷◌, ◌++◌, Option, none, some, if◌then◌else◌, ◌==◌,
  not, leb, map,
}
use carbmq_core.Errors.{Error, Result, wrap, enqueue_offline, get_offline, delete_offline}
use carbmq_core.Qtt.Packet.{RawMessage}
use carbmq_core.Db.Tables.{
  OfflineMessage, Tables, or_empty_object, where_rows, order_by, unless_fault,
}

-- The row that is inserted: an empty payload is stored as `{}`.
unfoldable pub offline_row : OfflineMessage → OfflineMessage
offline_row m = record m { payload = or_empty_object m.payload }

unfoldable pub has_packet : String → List OfflineMessage → Bool
has_packet packet_id [] = false
has_packet packet_id (m ∷ rows) = m.packet_id == packet_id || has_packet packet_id rows

-- `INSERT … ON CONFLICT (packet_id) DO NOTHING`
unfoldable pub insert_offline : OfflineMessage → List OfflineMessage → List OfflineMessage
unfolding has_packet
insert_offline m rows = if has_packet m.packet_id rows then rows else rows ++ m ∷ []

-- `EnqueueOfflineMessage`
unfoldable pub enqueue_offline_message :
    Option Error → OfflineMessage → Tables → Option Error × Tables
enqueue_offline_message none m t =
    (none, record t { offline_messages = insert_offline (offline_row m) t.offline_messages })
enqueue_offline_message (some e) m t = (some (enqueue_offline e), t)

-- `ORDER BY available_at ASC`
abbrev pub sooner : OfflineMessage → OfflineMessage → Bool
sooner a b = leb a.available_at b.available_at

-- A row that was read: its payload is what the database gives back of the text that was stored.
unfoldable pub scanned : (RawMessage → RawMessage) → OfflineMessage → OfflineMessage
scanned jsonb m = record m { payload = jsonb m.payload }

-- `GetOfflineMessages`
unfoldable pub get_offline_messages :
    (jsonb : RawMessage → RawMessage)
    → Option Error
    → String
    → Tables
    → Result (List OfflineMessage)
get_offline_messages jsonb fault client_id t = unless_fault fault get_offline (
    map (scanned jsonb)
      (order_by sooner (where_rows (λ m. m.client_id == client_id) t.offline_messages)))

-- `DeleteOfflineMessage`
unfoldable pub delete_offline_message : Option Error → String → Tables → Option Error × Tables
delete_offline_message none packet_id t = (
  none,
  record t {
    offline_messages = where_rows (λ m. not (m.packet_id == packet_id)) t.offline_messages;
  },
)
delete_offline_message (some e) packet_id t = (some (delete_offline e), t)

-- ===== src/Queue/Persistent.antt =====
-- internal/queue/persistent/store.go: the offline queue over the database. Its `ttl` is stored and
-- never read, so the model has none.
pub mod Laws
use carbmq_core.Base.{String, List, [], ◌∷◌, Option, none, some, map}
use carbmq_core.Errors.{Error, Result, ok, err}
use carbmq_core.Qtt.Packet.{Packet, Time, RawMessage, zero_packet, packet_publish}
use carbmq_core.Db.Tables.{OfflineMessage, Tables}
use carbmq_core.Db.Offline.{enqueue_offline_message, get_offline_messages, delete_offline_message}

-- the row that `Enqueue` makes of a packet
unfoldable pub to_offline_message : Time → String → Packet → OfflineMessage
to_offline_message now client_id packet = record {
  packet_id = packet.packet_id;
  client_id = client_id;
  topic = packet.topic;
  qos = packet.qos;
  payload = packet.payload;
  enqueued_at = now;
  available_at = now;
}

-- `Enqueue`, with its reading of the clock
unfoldable pub enqueue : Option Error → Time → String → Packet → Tables → Option Error × Tables
enqueue fault now client_id packet =
    enqueue_offline_message fault (to_offline_message now client_id packet)

-- the packet that `Pending` makes of a row
unfoldable pub to_packet : OfflineMessage → Packet
to_packet item = record zero_packet {
  type = packet_publish;
  packet_id = item.packet_id;
  topic = item.topic;
  qos = item.qos;
  payload = item.payload;
  timestamp = item.enqueued_at;
}

abbrev pub to_packets : Result (List OfflineMessage) → Result (List Packet)
to_packets (ok items) = ok (map to_packet items)
to_packets (err e) = err e

-- `Pending`
unfoldable pub pending :
    (jsonb : RawMessage → RawMessage) → Option Error → String → Tables → Result (List Packet)
pending jsonb fault client_id t = to_packets (get_offline_messages jsonb fault client_id t)

-- `Ack`
unfoldable pub ack : Option Error → String → Tables → Option Error × Tables
ack = delete_offline_message

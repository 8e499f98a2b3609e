-- ===== src/Qtt/Builders.antt =====
-- internal/protocol/packets/builders.go: the packets that the broker answers with. `now` is the
-- reading of `utils.TimestampNow`.
use carbmq_core.Base.{String, Bool}
use carbmq_core.Qtt.Packet.{
  Packet, Time, zero_packet, packet_conn_ack, packet_sub_ack, packet_pub_ack, packet_pong,
  packet_error,
}

unfoldable pub conn_ack : Time → String → Bool → Packet
conn_ack now status session_present = record zero_packet {
  type = packet_conn_ack;
  status = status;
  session_present = session_present;
  timestamp = now;
}

unfoldable pub sub_ack : Time → String → Packet
sub_ack now packet_id = record zero_packet {
  type = packet_sub_ack;
  packet_id = packet_id;
  status = "subscribed";
  timestamp = now;
}

unfoldable pub pub_ack : Time → String → Packet
pub_ack now packet_id = record zero_packet {
  type = packet_pub_ack;
  packet_id = packet_id;
  status = "acknowledged";
  timestamp = now;
}

unfoldable pub pong : Time → Packet
pong now = record zero_packet { type = packet_pong; status = "ok"; timestamp = now }

unfoldable pub error_packet : Time → String → String → Packet
error_packet now code message = record zero_packet {
  type = packet_error;
  code = code;
  error = message;
  timestamp = now;
}

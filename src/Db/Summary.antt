-- ===== src/Db/Summary.antt =====
-- `GetMetricsSummary` of api/db/store.go.
use carbmq_core.Base.{ℕ, ◌-◌, leb, length, Option, none, some}
use carbmq_core.Errors.{
  Error, Result, ok, err, count_devices, count_messages, count_offline, count_recent,
}
use carbmq_core.Qtt.Packet.{Time}
use carbmq_core.Db.Tables.{Message, Tables, where_rows}

pub record MetricsSummary : Type 0 where
  pub device_count : ℕ
  pub message_count : ℕ
  pub offline_queue_depth : ℕ
  pub recent_message_count : ℕ

abbrev hour : ℕ
hour = 3_600_000_000_000

-- The four queries, each with its fault. `now` is the database's `NOW()`.
unfoldable pub get_metrics_summary :
    (f₁ f₂ f₃ f₄ : Option Error) → Time → Tables → Result MetricsSummary
get_metrics_summary (some e) f₂ f₃ f₄ now t = err (count_devices e)
get_metrics_summary none (some e) f₃ f₄ now t = err (count_messages e)
get_metrics_summary none none (some e) f₄ now t = err (count_offline e)
get_metrics_summary none none none (some e) now t = err (count_recent e)
get_metrics_summary none none none none now t = ok (record {
  device_count = length t.devices;
  message_count = length t.messages;
  offline_queue_depth = length t.offline_messages;
  recent_message_count =
      length (where_rows (λ (m : Message). leb (now - hour) m.timestamp) t.messages);
})

-- ===== src/Tests/Ends.antt =====
-- The ends of the daemon and of its servers, and the simulator's devices, at concrete inputs.
use carbmq_core.Base.{
  ℕ, pos, negsuc, String, List, [], ◌∷◌, true, false, Option, none, some, ◌≡◌, refl, arith, ◌⊎◌,
  length, map, pos_part, ltb,
}
use carbmq_core.Errors.{external, err, scan_message, metrics_server}
use carbmq_core.Base.Text.Trim.{is_space}
use carbmq_core.Api.Numbers.{atoi, digits}
use carbmq_core.Api.Serve.{serve}
use carbmq_core.Cmd.Daemon.{Case, main_status, of_mode}
use carbmq_core.Cmd.Simulator.Start.{
  SimulatorConfig, started, device_ids, device_id, scan_int, AreDistinct, started-AreDistinct,
}
use carbmq_core.Db.Driver.{query_rows, scan_messages}
use carbmq_core.HttpServer.{server_closed, fails, failure}
use carbmq_core.Metrics.{collectors, full_name, start}

-- `Serve` fails
exits_with_1 :
    main_status [] none (of_mode none none (some (Case.sent (some (external "port in use")))))
    ≡ some 1
unfolding main_status of_mode
exits_with_1 = refl

closed_is_no_error :
    (serve server_closed ≡ none)
    × (start (fails (external "x")) ≡ some (metrics_server (external "x")))
unfolding serve start failure
closed_is_no_error = (refl, refl)

-- the devices that the simulator starts
abbrev sim : SimulatorConfig
sim = record {
  count = pos 3;
  broker_addr = "";
  api_base_url = "";
  device_prefix = "sim";
  interval = pos 1;
}

three : started sim ≡ "sim-001" ∷ "sim-002" ∷ "sim-003" ∷ []
unfolding started device_ids device_id carbmq_core.Base.Text.Decimal.padded
three = refl

scans :
    (scan_int " 12x" ≡ some (pos 12)) × (scan_int "-3" ≡ some (negsuc 2)) × (scan_int "x" ≡ none)
unfolding scan_int is_space atoi digits
scans = (refl, refl, refl)

started-AreDistinct_example : AreDistinct (started sim) × (length (started sim) ≡ 3)
started-AreDistinct_example = started-AreDistinct sim

-- a row that cannot be scanned
cut_short :
    query_rows none (err (external "type") ∷ []) none ≡ ([], some (scan_message (external "type")))
unfolding query_rows scan_messages
cut_short = refl

names :
    map full_name collectors
    ≡ "crabmq_broker_packets_in_total" ∷ "crabmq_broker_packets_out_total"
      ∷ "crabmq_broker_publishes_total" ∷ "crabmq_broker_subscriptions_total"
      ∷ "crabmq_broker_auth_failures_total" ∷ "crabmq_broker_rate_limited_total"
      ∷ "crabmq_broker_failed_deliveries_total" ∷ "crabmq_broker_active_sessions"
      ∷ "crabmq_broker_offline_queue_depth" ∷ []
unfolding full_name collectors
names = refl

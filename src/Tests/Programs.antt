-- ===== src/Tests/Programs.antt =====
-- The programs of cmd/ at concrete inputs.
use carbmq_core.Base.{pos, true, false, List, [], ◌∷◌, ◌++◌, none, some, ◌≡◌, refl}
use carbmq_core.Errors.{Result, ok, err, read_packet as read_failed}
use carbmq_core.Qtt.Packet.{Packet, packet_subscribe}
use carbmq_core.Qtt.Client.Calls.{hello}
use carbmq_core.Qtt.Client.Acks.{Acknowledged}
use carbmq_core.Cmd.Cli.{PublishFlags, SubscribeFlags, asked, report, run_publish, run_subscribe}
use carbmq_core.Cmd.Cli.Runs.{run_subscribe_prints, run_publish_trusts}
use carbmq_core.Cmd.Simulator.{
  Running, Event, ticks, reads, HttpAnswer, run_telemetry_loop, run_device,
}
use carbmq_core.Cmd.Simulator
use carbmq_core.Cmd.Simulator.Loop.{tick, read, AllOwed, run_telemetry_loop_pays}
use carbmq_core.Tests.Data.{telemetry, command}
use carbmq_core.Tests.Clients.{outside, works, cfg, accepted, refusal, gone, link}

abbrev subscribe_flags : SubscribeFlags
subscribe_flags = record {
  addr = "";
  client_id = "d1";
  token = "token";
  topic = "device/d1/command";
}

abbrev publish_flags : PublishFlags
publish_flags = record {
  addr = "";
  client_id = "d1";
  token = "token";
  topic = "device/d1/command";
  payload = [];
  qos = pos 1;
}

abbrev answers : List (Result Packet)
answers = ok accepted ∷ ok command ∷ ok telemetry ∷ err gone ∷ []

run_subscribe_prints_example :
    let (printed, r, l') = run_subscribe outside none none (ok subscribe_flags) (link answers) in
    let first = hello outside (asked "" "d1" "token") (("source", "go-cli") ∷ []) (link answers) in
    (printed ≡ telemetry ∷ [])
    × (r ≡ read_failed gone)
    × (l'.closed ≡ true)
    × ((s : Packet) × (s.type ≡ packet_subscribe)
        × Acknowledged (record (link answers) { outgoing = first ∷ s ∷ [] }) l' (telemetry ∷ []))
run_subscribe_prints_example =
    run_subscribe_prints outside works subscribe_flags (link answers) accepted command
      (telemetry ∷ []) gone [] refl refl

abbrev refused_answers : List (Result Packet)
refused_answers = ok accepted ∷ ok refusal ∷ []

run_publish_trusts_example :
    (run_publish outside (λ payload. true) none none (ok publish_flags) (link refused_answers)).0
    ≡ ok (some (report refusal))
run_publish_trusts_example =
    run_publish_trusts outside works (λ payload. true) publish_flags (link refused_answers) accepted
      refusal [] refl refl refl refl

abbrev device : Running
device = record { link = link []; commands = []; failed = none }

abbrev events : List Event
events = ticks (1 ∷ []) ∷ reads (ok command) ∷ reads (ok refusal) ∷ []

run_telemetry_loop_pays_example :
    let (e, r') = run_telemetry_loop outside cfg "d1" events device in
    (e ≡ none)
    × (r'.failed ≡ none)
    × ((sent : List Packet) × AllOwed "d1" events sent × (r'.link.outgoing ≡ [] ++ sent))
run_telemetry_loop_pays_example =
    run_telemetry_loop_pays outside works cfg "d1" events device
      (tick (1 ∷ []), (read command, (read refusal, tt))) refl

abbrev fine_answer : HttpAnswer
fine_answer = record {
  asked = none;
  done = none;
  status_code = 201;
  status = "201 Created";
  body = ok "token";
}

abbrev sim_round : Simulator.Round
sim_round = record {
  done = false;
  registered = fine_answer;
  issued = fine_answer;
  dialled = none;
  opened = none;
  link = link (ok accepted ∷ []);
  events = [];
  slept = true;
}

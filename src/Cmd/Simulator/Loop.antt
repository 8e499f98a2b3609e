-- ===== src/Cmd/Simulator/Loop.antt =====
-- What a device sends while its telemetry loop runs.
use carbmq_core.Base.{
  ℕ, pos, ltb_ℤ, String, true, false, List, [], ◌∷◌, ◌++◌, Option, none, ◌≡◌, refl, ap, sym, ◌∙◌,
  subst, Bool-cases, inl, inr, ◌==◌, All,
}
use carbmq_core.Base.Text.{◌<>◌}
use mathlib.Core.List.{append_assoc, append-nil}
use carbmq_core.Errors.{Error, ok}
use carbmq_core.Qtt.Packet.{Packet, RawMessage, packet_publish, packet_pub_ack}
use carbmq_core.Qtt.Client.{Config, Outside, Link, publish, send_pub_ack}
use carbmq_core.Qtt.Client.Calls.{publish_sends, send_pub_ack_sends}
use carbmq_core.Qtt.Client.Acks.{asks_ack}
use carbmq_core.Cmd.Simulator.{
  Running, Event, ticks, reads, acked, read_command, reader_turn, published, turn,
  run_telemetry_loop,
}

-- An event at which nothing fails: a tick, or a packet that is read.
pub data Calm : Event → Type 0 where
  tick : (payload : RawMessage) → Calm (ticks payload)
  read : (p : Packet) → Calm (reads (ok p))

-- What a device owes for an event: its telemetry at a tick, a PUBACK for a PUBLISH that asks for one,
-- and nothing for any other packet.
pub data Owed (device_id : String) : Event → List Packet → Type 0 where
  telemetry :
      (payload : RawMessage) (p : Packet)
      → p.type ≡ packet_publish
      → p.topic ≡ "device/" <> device_id <> "/telemetry"
      → p.payload ≡ payload
      → Owed device_id (ticks payload) (p ∷ [])
  receipt :
      (q p : Packet)
      → asks_ack q ≡ true
      → p.type ≡ packet_pub_ack
      → p.packet_id ≡ q.packet_id
      → Owed device_id (reads (ok q)) (p ∷ [])
  silence : (q : Packet) → asks_ack q ≡ false → Owed device_id (reads (ok q)) []

-- What it owes for events, one after another.
pub data AllOwed (device_id : String) : List Event → List Packet → Type 0 where
  nothing : AllOwed device_id [] []
  more :
      {event : Event} {events : List Event} {sent later : List Packet}
      → Owed device_id event sent
      → AllOwed device_id events later
      → AllOwed device_id (event ∷ events) (sent ++ later)

-- what an event did: it is no return, `readCommands` goes on, and just what is owed was sent
record Pays (device_id : String) (event : Event) (r : Running) (x : Option Error × Running)
    : Type 0 where
  goes_on : x.0 ≡ none
  reading : x.1.failed ≡ none
  sent : List Packet
  owed : Owed device_id event sent
  outgoing : x.1.link.outgoing ≡ r.link.outgoing ++ sent

module _ (o : Outside) (works : (n : ℕ) → o.send_fault n ≡ none) (cfg : Config)
    (device_id : String) where
  tick-Pays :
      (payload : RawMessage) (r : Running)
      → r.failed ≡ none
      → Pays device_id (ticks payload) r (turn o cfg device_id (ticks payload) r)
  unfolding turn published
  tick-Pays payload r idle =
      let (fine, _, (p, sent, kind, topic, _, content)) =
        publish_sends o works cfg ("device/" <> device_id <> "/telemetry") (pos 1) payload r.link in
      let m = publish o cfg ("device/" <> device_id <> "/telemetry") (pos 1) payload r.link in
      let is : turn o cfg device_id (ticks payload) r ≡ (none, record r { link = m.1 }) =
        rw (turn, fine) refl in
      subst (Pays device_id (ticks payload) r) (sym is) (record {
        goes_on = refl;
        reading = idle;
        sent = p ∷ [];
        owed = telemetry payload p kind topic content;
        outgoing = sent;
      })

  turn_reads :
      (q : Packet) (r : Running)
      → r.failed ≡ none
      → turn o cfg device_id (reads (ok q)) r ≡ (none, read_command o cfg (ok q) r)
  unfolding turn reader_turn
  turn_reads q r idle = rw (turn, idle) refl

  reads_other :
      (q : Packet) (r : Running)
      → (q.type == packet_publish) ≡ false
      → read_command o cfg (ok q) r ≡ r
  unfolding read_command
  reads_other q r other = rw other refl

  reads_free :
      (q : Packet) (r : Running)
      → (q.type == packet_publish) ≡ true
      → ltb_ℤ (pos 0) q.qos ≡ false
      → read_command o cfg (ok q) r ≡ record r { commands = r.commands ++ q ∷ [] }
  unfolding read_command
  reads_free q r publishes free = rw (publishes, free) refl

  reads_asking :
      (q : Packet) (r : Running)
      → (q.type == packet_publish) ≡ true
      → ltb_ℤ (pos 0) q.qos ≡ true
      → read_command o cfg (ok q) r ≡ record r {
        link = (send_pub_ack o cfg q.packet_id r.link).1;
        commands = r.commands ++ q ∷ [];
      }
  unfolding read_command acked
  reads_asking q r publishes asks =
      rw (publishes, asks, (send_pub_ack_sends o works cfg q.packet_id r.link).0) refl

  silent :
      (q : Packet) (r r' : Running)
      → turn o cfg device_id (reads (ok q)) r ≡ (none, r')
      → r'.failed ≡ none
      → r'.link ≡ r.link
      → asks_ack q ≡ false
      → Pays device_id (reads (ok q)) r (turn o cfg device_id (reads (ok q)) r)
  silent q r r' is idle same free = subst (Pays device_id (reads (ok q)) r) (sym is) (record {
    goes_on = refl;
    reading = idle;
    sent = [];
    owed = silence q free;
    outgoing = ap (λ (l : Link). l.outgoing) same ∙ sym (append-nil r.link.outgoing);
  })

  read-Pays :
      (q : Packet) (r : Running)
      → r.failed ≡ none
      → Pays device_id (reads (ok q)) r (turn o cfg device_id (reads (ok q)) r)
  read-Pays q r idle =
      let next = turn_reads q r idle in
      elim (Bool-cases (q.type == packet_publish)) [
        | inr other ↦
            silent q r r (next ∙ ap (λ x. (none, x)) (reads_other q r other)) idle refl
              (rw other refl)
        | inl publishes ↦ elim (Bool-cases (ltb_ℤ (pos 0) q.qos)) [
          | inr free ↦
              silent q r _ (next ∙ ap (λ x. (none, x)) (reads_free q r publishes free)) idle refl
                (rw (publishes, free) refl)
          | inl asks ↦
              let (_, _, (p, sent, kind, names)) =
                send_pub_ack_sends o works cfg q.packet_id r.link in
              subst (Pays device_id (reads (ok q)) r)
                (sym (next ∙ ap (λ x. (none, x)) (reads_asking q r publishes asks)))
                (record {
                  goes_on = refl;
                  reading = idle;
                  sent = p ∷ [];
                  owed = receipt q p (rw (publishes, asks) refl) kind names;
                  outgoing = sent;
                })
        ]
      ]

  Calm-Pays :
      {event : Event}
      → Calm event
      → (r : Running) → r.failed ≡ none
      → Pays device_id event r (turn o cfg device_id event r)
  Calm-Pays (tick payload) r idle = tick-Pays payload r idle
  Calm-Pays (read p) r idle = read-Pays p r idle

  -- Where sends work, the telemetry loop and `readCommands` beside it, at any sequence of ticks and
  -- of packets that are read, send just what is owed for each, in that order: a PUBLISH with the
  -- payload to the device's telemetry topic for a tick, a PUBACK with the packet's identifier for a
  -- PUBLISH with a QoS above 0, and nothing for another packet. Neither of them ends.
  pub run_telemetry_loop_pays :
      (events : List Event) (r : Running)
      → All Calm events
      → r.failed ≡ none
      → let (e, r') = run_telemetry_loop o cfg device_id events r in
        (e ≡ none)
        × (r'.failed ≡ none)
        × ((sent : List Packet) × AllOwed device_id events sent
            × (r'.link.outgoing ≡ r.link.outgoing ++ sent))
  unfolding run_telemetry_loop
  run_telemetry_loop_pays [] r calm idle =
      (refl, idle, ([], nothing, sym (append-nil r.link.outgoing)))
  run_telemetry_loop_pays (event ∷ events) r calm idle =
      let first = Calm-Pays calm.0 r idle in
      let r₁ = (turn o cfg device_id event r).1 in
      let (ends, reading, (sent, owed, all)) =
        run_telemetry_loop_pays events r₁ calm.1 first.reading in
      rw (run_telemetry_loop, first.goes_on)
        (
          ends,
          reading,
          (
            first.sent ++ sent,
            more first.owed owed,
            all ∙ ap (λ x. x ++ sent) first.outgoing ∙ append_assoc r.link.outgoing first.sent sent,
          ),
        )

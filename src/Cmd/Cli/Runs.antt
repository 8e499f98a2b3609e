-- ===== src/Cmd/Cli/Runs.antt =====
-- What the commands print.
use carbmq_core.Base.{
  ℕ, pos, ltb_ℤ, String, Bool, true, List, [], ◌∷◌, ◌++◌, none, some, map, ◌≡◌, refl, ap, ◌∙◌,
  Bool-cases, subst, ◌+◌, inl, inr,
}
use carbmq_core.Errors.{Error, Result, ok, err, read_packet as read_failed}
use carbmq_core.Qtt.Packet.{Packet, Subscription, RawMessage, packet_conn_ack, packet_subscribe}
use carbmq_core.Qtt.Client.{
  Config, Outside, Link, send_pub_ack, dial, with_defaults, read_packet, close,
}
use carbmq_core.Qtt.Client.Calls.{hello, connect_reads, subscribe_sends, publish_sends}
use carbmq_core.Qtt.Client.Acks.{
  asks_ack, Acknowledged, Acknowledged-none, Acknowledged-skip, Acknowledged-ack,
}
use carbmq_core.Cmd.Cli.{
  PublishFlags, SubscribeFlags, report, asked, confirmed, publish_once, run_publish, acknowledge,
  follow, follows, run_subscribe, follow_topic, closing,
}

module _ (o : Outside) (works : (n : ℕ) → o.send_fault n ≡ none) where
  acknowledge-Acknowledged :
      (cfg : Config) (p : Packet) (l₁ : Link) {l l' : Link} {ps : List Packet}
      → l₁.outgoing ≡ l.outgoing
      → Acknowledged (acknowledge o cfg p l₁) l' ps
      → Acknowledged l l' (p ∷ ps)
  unfolding acknowledge
  acknowledge-Acknowledged cfg p l₁ {l} {l'} {ps} same a = elim (Bool-cases (asks_ack p)) [
    | inl asks ↦
        let sends : acknowledge o cfg p l₁ ≡ (send_pub_ack o cfg p.packet_id l₁).1 =
          rw (acknowledge, asks) refl in
        Acknowledged-ack o works cfg l₁ p same asks (subst (λ x. Acknowledged x l' ps) sends a)
    | inr free ↦
        let rests : acknowledge o cfg p l₁ ≡ l₁ = rw (acknowledge, free) refl in
        Acknowledged-skip p same free (subst (λ x. Acknowledged x l' ps) rests a)
  ]

  follow_prints :
      (cfg : Config) (ps : List Packet) (e : Error) (later : List (Result Packet)) (l : Link)
      → let (printed, r, l') = follow o cfg (map ok ps ++ err e ∷ later) l in
        (printed ≡ ps) × (r ≡ read_failed e) × Acknowledged l l' ps
  unfolding follow
  follow_prints cfg [] e later l = (refl, refl, Acknowledged-none refl)
  follow_prints cfg (p ∷ ps) e later l =
      let l₁ : Link = record l { incoming = map ok ps ++ err e ∷ later } in
      let (printed, ends, acks) = follow_prints cfg ps e later (acknowledge o cfg p l₁) in
      (ap (λ x. p ∷ x) printed, ends, acknowledge-Acknowledged cfg p l₁ refl acks)

  -- what `runSubscribe` has done when it begins its loop
  follows_reads :
      (flags : SubscribeFlags) (cfg : Config) (l : Link) (a q : Packet)
      (rest : List (Result Packet))
      → l.incoming ≡ ok a ∷ ok q ∷ rest
      → a.type ≡ packet_conn_ack
      → let (r, l') = follows o flags cfg l in
        (r ≡ ok q)
        × (l'.incoming ≡ rest)
        × ((s : Packet) × (s.type ≡ packet_subscribe)
            × (l'.outgoing
                ≡ (l.outgoing ++ hello o cfg (("source", "go-cli") ∷ []) l ∷ []) ++ s ∷ []))
  unfolding follows read_packet
  follows_reads flags cfg l a q rest waits acks =
      let source : List (String × String) = ("source", "go-cli") ∷ [] in
      let connected = connect_reads o works cfg source l a (ok q ∷ rest) waits acks in
      let l₁ : Link = record l {
        incoming = ok q ∷ rest;
        outgoing = l.outgoing ++ hello o cfg source l ∷ [];
        calls = l.calls + 2;
      } in
      let wanted : Subscription = record { topic = flags.topic; qos = pos 1 } in
      let (fine, kept, (s, sent, is_subscribe, _, _)) =
        subscribe_sends o works cfg (wanted ∷ []) l₁ in
      rw (follows, connected, fine, kept) (refl, refl, (s, is_subscribe, sent))

  follow_topic_prints :
      (flags : SubscribeFlags) (cfg : Config) (l : Link) (a q : Packet) (ps : List Packet)
      (e : Error) (later : List (Result Packet))
      → l.incoming ≡ ok a ∷ ok q ∷ map ok ps ++ err e ∷ later
      → a.type ≡ packet_conn_ack
      → let (printed, r, l') = follow_topic o flags cfg l in
        (printed ≡ ps)
        × (r ≡ read_failed e)
        × (l'.closed ≡ true)
        × ((s : Packet) × (s.type ≡ packet_subscribe)
            × Acknowledged
                (record l {
                  outgoing =
                      (l.outgoing ++ hello o cfg (("source", "go-cli") ∷ []) l ∷ []) ++ s ∷ [];
                })
                l'
                ps)
  unfolding follow_topic close
  follow_topic_prints flags cfg l a q ps e later waits acks =
      let (fine, kept, (s, is_subscribe, sent)) =
        follows_reads flags cfg l a q (map ok ps ++ err e ∷ later) waits acks in
      let (printed, ends, paid) = follow_prints cfg ps e later (follows o flags cfg l).1 in
      rw (follow_topic, fine, kept)
        (
          printed,
          ends,
          refl,
          (
            s,
            is_subscribe,
            record {
              acks = paid.acks;
              sent = paid.sent ∙ ap (λ x. x ++ paid.acks) sent;
              names = paid.names;
              kinds = paid.kinds;
            },
          ),
        )

  -- Where quic-go connects and sends work, `runSubscribe` takes the packet behind the CONNACK for the
  -- SUBACK, whatever it is: it is neither printed nor acknowledged. The command prints every packet
  -- behind it up to the first failing read, in order, sends one PUBACK for each PUBLISH among those
  -- with a QoS above 0, and ends with the read's error, the stream closed.
  pub run_subscribe_prints :
      (flags : SubscribeFlags) (l : Link) (a q : Packet) (ps : List Packet) (e : Error)
      (later : List (Result Packet))
      → l.incoming ≡ ok a ∷ ok q ∷ map ok ps ++ err e ∷ later
      → a.type ≡ packet_conn_ack
      → let (printed, r, l') = run_subscribe o none none (ok flags) l in
        let cfg = asked flags.addr flags.client_id flags.token in
        (printed ≡ ps)
        × (r ≡ read_failed e)
        × (l'.closed ≡ true)
        × ((s : Packet) × (s.type ≡ packet_subscribe)
            × Acknowledged
                (record l {
                  outgoing =
                      (l.outgoing ++ hello o cfg (("source", "go-cli") ∷ []) l ∷ []) ++ s ∷ [];
                })
                l'
                ps)
  unfolding run_subscribe dial with_defaults
  run_subscribe_prints flags l a q ps e later waits acks =
      follow_topic_prints flags (with_defaults (asked flags.addr flags.client_id flags.token)) l a q
        ps e later waits acks

  publish_once_trusts :
      (valid : RawMessage → Bool) (flags : PublishFlags) (cfg : Config) (l : Link) (a q : Packet)
      (later : List (Result Packet))
      → l.incoming ≡ ok a ∷ ok q ∷ later
      → a.type ≡ packet_conn_ack
      → valid flags.payload ≡ true
      → ltb_ℤ (pos 0) flags.qos ≡ true
      → (publish_once o valid flags cfg l).0 ≡ ok (some (report q))
  unfolding publish_once confirmed read_packet
  publish_once_trusts valid flags cfg l a q later waits acks fine asks =
      let source : List (String × String) = ("source", "go-cli") ∷ [] in
      let connected = connect_reads o works cfg source l a (ok q ∷ later) waits acks in
      let l₁ : Link = record l {
        incoming = ok q ∷ later;
        outgoing = l.outgoing ++ hello o cfg source l ∷ [];
        calls = l.calls + 2;
      } in
      let (sends, kept, _) = publish_sends o works cfg flags.topic flags.qos flags.payload l₁ in
      rw (publish_once, connected, fine, sends, confirmed, asks, kept) refl

  -- Where quic-go connects and sends work, a publish with a QoS above 0 succeeds by any packet that
  -- is read behind the CONNACK, an ERROR of the broker too: the command prints its type and
  -- identifier as the answer.
  pub run_publish_trusts :
      (valid : RawMessage → Bool) (flags : PublishFlags) (l : Link) (a q : Packet)
      (later : List (Result Packet))
      → l.incoming ≡ ok a ∷ ok q ∷ later
      → a.type ≡ packet_conn_ack
      → valid flags.payload ≡ true
      → ltb_ℤ (pos 0) flags.qos ≡ true
      → (run_publish o valid none none (ok flags) l).0 ≡ ok (some (report q))
  unfolding run_publish dial closing
  run_publish_trusts valid flags l a q later waits acks fine asks =
      publish_once_trusts valid flags _ l a q later waits acks fine asks

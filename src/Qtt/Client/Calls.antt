-- ===== src/Qtt/Client/Calls.antt =====
-- What the calls of a client do to its stream, where sends work.
use carbmq_core.Base.{ℕ, ◌+◌, ℤ, String, List, [], ◌∷◌, ◌++◌, none, ◌≡◌, refl, arith, eq_iff}
use carbmq_core.Errors.{Result, ok}
use carbmq_core.Qtt.Packet.{
  Packet, Subscription, RawMessage, packet_publish, zero_packet, packet_connect, packet_conn_ack,
  packet_pub_ack, packet_subscribe,
}
use carbmq_core.Qtt.Client.{
  Config, Outside, Link, send, read_packet, connect, publish, subscribe, send_pub_ack,
}

-- the packet that `Connect` sends
abbrev pub hello : Outside → Config → List (String × String) → Link → Packet
hello o cfg metadata l = record zero_packet {
  type = packet_connect;
  client_id = cfg.client_id;
  token = cfg.token;
  metadata = metadata;
  timestamp = o.clock l.calls;
}

module _ (o : Outside) (works : (n : ℕ) → o.send_fault n ≡ none) where
  pub send_works :
      (p : Packet) (l : Link)
      → send o p l ≡ (ok tt, record l { outgoing = l.outgoing ++ p ∷ []; calls = l.calls + 1 })
  unfolding send
  send_works p l = rw (send, works l.calls) refl

module _ (o : Outside) (works : (n : ℕ) → o.send_fault n ≡ none) (cfg : Config) where
  -- `Connect` sends its packet and gives back the CONNACK that it reads.
  pub connect_reads :
      (metadata : List (String × String)) (l : Link) (a : Packet) (rest : List (Result Packet))
      → l.incoming ≡ ok a ∷ rest
      → a.type ≡ packet_conn_ack
      → connect o cfg metadata l ≡ (
        ok a,
        record l {
          incoming = rest;
          outgoing = l.outgoing ++ hello o cfg metadata l ∷ [];
          calls = l.calls + 2;
        },
      )
  unfolding connect read_packet send
  connect_reads metadata l a rest waits acks =
      ground (arith, works (l.calls + 1), eq_iff a.type packet_conn_ack)

  pub subscribe_sends :
      (subs : List Subscription) (l : Link)
      → let (r, l') = subscribe o cfg subs l in
        (r ≡ ok tt)
        × (l'.incoming ≡ l.incoming)
        × ((p : Packet) × (l'.outgoing ≡ l.outgoing ++ p ∷ [])
            × (p.type ≡ packet_subscribe)
            × (p.subscriptions ≡ subs)
            × (p.client_id ≡ cfg.client_id))
  unfolding subscribe
  subscribe_sends subs l =
      let p : Packet = record zero_packet {
        type = packet_subscribe;
        packet_id = o.new_packet_id l.calls;
        client_id = cfg.client_id;
        subscriptions = subs;
        timestamp = o.clock (l.calls + 1);
      } in
      rw (send_works o works p (record l { calls = l.calls + 1 + 1 }))
        (refl, refl, (p, refl, refl, refl, refl))

  pub publish_sends :
      (topic : String) (qos : ℤ) (payload : RawMessage) (l : Link)
      → let (r, l') = publish o cfg topic qos payload l in
        (r ≡ ok tt)
        × (l'.incoming ≡ l.incoming)
        × ((p : Packet) × (l'.outgoing ≡ l.outgoing ++ p ∷ [])
            × (p.type ≡ packet_publish)
            × (p.topic ≡ topic)
            × (p.qos ≡ qos)
            × (p.payload ≡ payload))
  unfolding publish
  publish_sends topic qos payload l =
      let p : Packet = record zero_packet {
        type = packet_publish;
        packet_id = o.new_packet_id l.calls;
        client_id = cfg.client_id;
        topic = topic;
        qos = qos;
        payload = payload;
        timestamp = o.clock (l.calls + 1);
      } in
      rw (send_works o works p (record l { calls = l.calls + 1 + 1 }))
        (refl, refl, (p, refl, refl, refl, refl, refl))

  pub send_pub_ack_sends :
      (id : String) (l : Link)
      → let (r, l') = send_pub_ack o cfg id l in
        (r ≡ ok tt)
        × (l'.incoming ≡ l.incoming)
        × ((p : Packet) × (l'.outgoing ≡ l.outgoing ++ p ∷ [])
            × (p.type ≡ packet_pub_ack)
            × (p.packet_id ≡ id))
  unfolding send_pub_ack
  send_pub_ack_sends id l =
      let p : Packet = record zero_packet {
        type = packet_pub_ack;
        packet_id = id;
        client_id = cfg.client_id;
        timestamp = o.clock l.calls;
      } in
      rw (send_works o works p (record l { calls = l.calls + 1 }))
        (refl, refl, (p, refl, refl, refl))

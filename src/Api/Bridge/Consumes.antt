-- ===== src/Api/Bridge/Consumes.antt =====
-- What `consume` of the bridge does with the packets that it reads.
use carbmq_core.Base.{
  ℕ, pos, ltb_ℤ, true, false, List, [], ◌∷◌, ◌++◌, Option, none, map, ◌≡◌, refl, ap, if◌then◌else◌,
  Bool-cases, inl, inr, ◌==◌,
}
use carbmq_core.Errors.{Error, Result, ok, err, read_packet as read_failed}
use carbmq_core.Qtt.Packet.{Packet, packet_publish}
use carbmq_core.Qtt.Client.{Config, Outside, Link, send_pub_ack}
use carbmq_core.Qtt.Client.Calls.{send_pub_ack_sends}
use carbmq_core.Qtt.Client.Acks.{
  Acknowledged, Acknowledged-none, Acknowledged-skip, Acknowledged-ack,
}
use carbmq_core.Api.Hub.{TelemetryEvent, Socket, Hub, broadcast}
use carbmq_core.Api.Bridge.{event_of, take_publish, handled, consume}

-- the PUBLISH packets
unfoldable pub published : List Packet → List Packet
published [] = []
published (p ∷ ps) = let rest = published ps in if p.type == packet_publish then p ∷ rest else rest

-- `Broadcast` of event after event
unfoldable pub broadcast_each : (Socket → Option Error) → List TelemetryEvent → Hub → Hub
broadcast_each fault [] h = h
broadcast_each fault (event ∷ events) h = broadcast_each fault events (broadcast fault event h)

module _ (o : Outside) (works : (n : ℕ) → o.send_fault n ≡ none) (cfg : Config)
    (fault : Socket → Option Error) where
  handled_other :
      (p : Packet) (l : Link) (h : Hub)
      → (p.type == packet_publish) ≡ false
      → handled o cfg fault p l h ≡ (none, l, h)
  unfolding handled
  handled_other p l h other = rw other refl

  handled_free :
      (p : Packet) (l : Link) (h : Hub)
      → (p.type == packet_publish) ≡ true
      → ltb_ℤ (pos 0) p.qos ≡ false
      → handled o cfg fault p l h ≡ (none, l, broadcast fault (event_of p) h)
  unfolding handled take_publish
  handled_free p l h publishes free = rw (publishes, free) refl

  handled_asks :
      (p : Packet) (l : Link) (h : Hub)
      → (p.type == packet_publish) ≡ true
      → ltb_ℤ (pos 0) p.qos ≡ true
      → handled o cfg fault p l h
        ≡ (none, (send_pub_ack o cfg p.packet_id l).1, broadcast fault (event_of p) h)
  unfolding handled take_publish
  handled_asks p l h publishes asks =
      rw (publishes, asks, (send_pub_ack_sends o works cfg p.packet_id l).0) refl

  consume_step :
      (p : Packet) (rest : List (Result Packet)) (l l' : Link) (h h' : Hub)
      → handled o cfg fault p (record l { incoming = rest }) h ≡ (none, l', h')
      → consume o cfg fault (ok p ∷ rest) l h ≡ consume o cfg fault rest l' h'
  unfolding consume
  consume_step p rest l l' h h' e =
      rw (consume, ap (λ (r : Option Error × Link × Hub). r.0) e)
        (ap (λ (r : Option Error × Link × Hub). consume o cfg fault rest r.1 r.2) e)

  -- Where sends work, `consume` takes every packet that precedes the first failing read: it
  -- broadcasts the event of each PUBLISH among them, in order, and sends one PUBACK, with its
  -- identifier, for each of those with a QoS above 0; then it ends with the read's error.
  pub consume_pushes :
      (ps : List Packet) (e : Error) (later : List (Result Packet)) (l : Link) (h : Hub)
      → let (r, l', h') = consume o cfg fault (map ok ps ++ err e ∷ later) l h in
        (r ≡ read_failed e)
        × (h' ≡ broadcast_each fault (map event_of (published ps)) h)
        × Acknowledged l l' ps
  unfolding consume published broadcast_each
  consume_pushes [] e later l h = (refl, refl, Acknowledged-none refl)
  consume_pushes (p ∷ ps) e later l h =
      let rest = map ok ps ++ err e ∷ later in
      let l₁ : Link = record l { incoming = rest } in
      let h₁ = broadcast fault (event_of p) h in
      elim (Bool-cases (p.type == packet_publish)) [
        | inr other ↦
            let (ends, pushed, acks) = consume_pushes ps e later l₁ h in
            rw (consume_step p rest l l₁ h h (handled_other p l₁ h other), published, other)
              (ends, pushed, Acknowledged-skip p refl (rw other refl) acks)
        | inl publishes ↦ elim (Bool-cases (ltb_ℤ (pos 0) p.qos)) [
          | inr free ↦
              let (ends, pushed, acks) = consume_pushes ps e later l₁ h₁ in
              rw
                (
                  consume_step p rest l l₁ h h₁ (handled_free p l₁ h publishes free),
                  published,
                  publishes,
                )
                (ends, pushed, Acknowledged-skip p refl (rw (publishes, free) refl) acks)
          | inl asks ↦
              let l₂ = (send_pub_ack o cfg p.packet_id l₁).1 in
              let (ends, pushed, acks) = consume_pushes ps e later l₂ h₁ in
              rw
                (
                  consume_step p rest l l₂ h h₁ (handled_asks p l₁ h publishes asks),
                  published,
                  publishes,
                )
                (
                  ends,
                  pushed,
                  Acknowledged-ack o works cfg l₁ p refl (rw (publishes, asks) refl) acks,
                )
        ]
      ]

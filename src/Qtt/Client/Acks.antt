-- ===== src/Qtt/Client/Acks.antt =====
-- The PUBACKs that a client owes for the packets that it reads.
use carbmq_core.Base.{
  ℕ, pos, ltb_ℤ, Bool, true, false, ◌&&◌, List, [], ◌∷◌, ◌++◌, none, map, ◌≡◌, refl, ap, sym, ◌∙◌,
  if◌then◌else◌, ◌==◌,
}
use mathlib.Core.List.{append_assoc, append-nil}
use carbmq_core.Qtt.Packet.{Packet, packet_publish, packet_pub_ack}
use carbmq_core.Qtt.Client.{Config, Outside, Link, send_pub_ack}
use carbmq_core.Qtt.Client.Calls.{send_pub_ack_sends}

-- a PUBLISH with a QoS above 0
abbrev pub asks_ack : Packet → Bool
asks_ack p = p.type == packet_publish && ltb_ℤ (pos 0) p.qos

-- those of the packets that are to be acknowledged
unfoldable pub asking : List Packet → List Packet
asking [] = []
asking (p ∷ ps) = let rest = asking ps in if asks_ack p then p ∷ rest else rest

-- Between two states of the stream, just a PUBACK was sent for each packet that asks for one, with
-- its identifier, in their order.
pub record Acknowledged (l l' : Link) (ps : List Packet) : Type 0 where
  pub acks : List Packet
  pub sent : l'.outgoing ≡ l.outgoing ++ acks
  pub names : map (λ (p : Packet). p.packet_id) acks ≡ map (λ (p : Packet). p.packet_id) (asking ps)
  pub kinds : map (λ (p : Packet). p.type) acks ≡ map (λ (p : Packet). packet_pub_ack) acks

-- Nothing was sent, and nothing was to be.
pub Acknowledged-none : {l l' : Link} → l'.outgoing ≡ l.outgoing → Acknowledged l l' []
unfolding asking
Acknowledged-none {l} {l'} same = record {
  acks = [];
  sent = same ∙ sym (append-nil l.outgoing);
  names = refl;
  kinds = refl;
}

-- A packet that asks for nothing comes before.
pub Acknowledged-skip :
    {l l₁ l' : Link} {ps : List Packet} (p : Packet)
    → l₁.outgoing ≡ l.outgoing
    → asks_ack p ≡ false
    → Acknowledged l₁ l' ps
    → Acknowledged l l' (p ∷ ps)
unfolding asking
Acknowledged-skip p same free a = record {
  acks = a.acks;
  sent = a.sent ∙ ap (λ x. x ++ a.acks) same;
  names = rw (asking, free) a.names;
  kinds = a.kinds;
}

module _ (o : Outside) (works : (n : ℕ) → o.send_fault n ≡ none) (cfg : Config) where
  -- A packet that asks for a PUBACK is acknowledged before.
  pub Acknowledged-ack :
      {l l' : Link} {ps : List Packet} (l₁ : Link) (p : Packet)
      → l₁.outgoing ≡ l.outgoing
      → asks_ack p ≡ true
      → Acknowledged (send_pub_ack o cfg p.packet_id l₁).1 l' ps
      → Acknowledged l l' (p ∷ ps)
  unfolding asking
  Acknowledged-ack {l} l₁ p same asks a =
      let (_, _, (ack, sent, is_ack, named)) = send_pub_ack_sends o works cfg p.packet_id l₁ in
      record {
        acks = ack ∷ a.acks;
        sent =
            a.sent
            ∙ ap (λ x. x ++ a.acks) (sent ∙ ap (λ x. x ++ ack ∷ []) same)
            ∙ append_assoc l.outgoing (ack ∷ []) a.acks;
        names = let rest = a.names in rw (asking, asks) cc;
        kinds = let rest = a.kinds in cc;
      }

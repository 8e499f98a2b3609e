-- ===== src/Broker/Server/Connection/Carried.antt =====
-- Whatever the connections do, the payloads that leave the broker are payloads that came in.
use carbmq_core.Base.{[]}
use carbmq_core.Qtt.Packet.{Packet, RawMessage}
use carbmq_core.Broker.State.{Env, Server}
use carbmq_core.Broker.Router.Payloads.{Carries}
use carbmq_core.Broker.Server.Connection.Steps.{
  World, Reach, opens, receives, leaves, drops, begin, next,
}
use carbmq_core.Broker.Server.Connection.PayloadRounds.{
  start-Carries, handle_packet-Carries, finish-Carries,
}
use carbmq_core.Db.Tables.{empty_object}

-- every packet that a live connection receives on the way has the property `R`
abbrev pub Received :
    (R : Packet → Type 0) {env : Env} {s : Server} {w : World} → Reach env s w → Type 0
Received R begin = Unit
Received R (next r (opens live s conn received)) = Received R r
Received R (next r (receives live s l p listed goes_on)) = Received R r × R p
Received R (next r (leaves before after s l p ends)) = Received R r × R p
Received R (next r (drops before after s l)) = Received R r

-- In every sequence of handlers, a property of payloads is kept that holds of the
-- empty payload, of the empty object, which is stored in its place, and of the payload of every packet
-- that a connection receives behind its first, and of what the database gives back for a text of which it holds: if every packet that was sent and every row of the
-- offline queue has such a payload, it stays so.
pub Reach-Carries :
    (Q : RawMessage → Type 0) (env : Env) (s : Server) (w : World)
    → Q empty_object
    → Q []
    → ((b : RawMessage) → Q b → Q (env.jsonb b))
    → (r : Reach env s w) → Received (λ p. Q p.payload) r
    → Carries Q s
    → Carries Q w.server
Reach-Carries Q env s w of_object of_nothing back begin got h = h
Reach-Carries Q env s w of_object of_nothing back (next r (opens live s' conn received)) got h =
    start-Carries Q of_object of_nothing env conn received s' back
      (Reach-Carries Q env s _ of_object of_nothing back r got h)
Reach-Carries Q env s w of_object of_nothing back (next r (receives live s' l p listed goes_on)) got
      h =
    handle_packet-Carries Q of_object of_nothing env l.conn l.client l.claims p s' got.1
      (Reach-Carries Q env s _ of_object of_nothing back r got.0 h)
Reach-Carries Q env s w of_object of_nothing back (next r (leaves before after s' l p ends)) got h =
    finish-Carries Q of_object of_nothing env l.client _ (
      handle_packet-Carries Q of_object of_nothing env l.conn l.client l.claims p s' got.1
        (Reach-Carries Q env s _ of_object of_nothing back r got.0 h))
Reach-Carries Q env s w of_object of_nothing back (next r (drops before after s' l)) got h =
    finish-Carries Q of_object of_nothing env l.client s'
      (Reach-Carries Q env s _ of_object of_nothing back r got h)

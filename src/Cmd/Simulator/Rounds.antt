-- ===== src/Cmd/Simulator/Rounds.antt =====
-- The streams that `runDevice` opens.
use carbmq_core.Base.{
  String, Bool, true, List, [], ◌∷◌, Option, none, some, ◌≡◌, refl, All, Bool-cases, Option-cases,
  inl, inr,
}
use carbmq_core.Errors.{Error, Result, ok, err, Result-cases}
use carbmq_core.Qtt.Packet.{Packet}
use carbmq_core.Qtt.Client.{Config, Outside, Link, close, dial}
use carbmq_core.Cmd.Simulator.{
  Running, Event, Round, Stand, unopened, given_up, still_running, give_up, stand_of, connected,
  attempt, behind, run_device, ensure_token,
}

-- A round whose stream, if it has one, was closed.
abbrev IsClosed : Stand → Type 0
IsClosed unopened = Unit {0}
IsClosed (given_up r) = r.link.closed ≡ true
IsClosed (still_running r) = Unit {0}

give_up-IsClosed : (r : Running) → IsClosed (give_up r)
unfolding give_up close
give_up-IsClosed r = refl

stand_of-IsClosed : (r : Option Error × Running) → IsClosed (stand_of r)
unfolding stand_of
stand_of-IsClosed (some e, r) = give_up-IsClosed r
stand_of-IsClosed (none, r) = tt

module _ (o : Outside) (decode : String → Result String)
    (broker_addr api_base_url device_id : String) where
  connected-IsClosed :
      (cfg : Config) (events : List Event) (r : Result Packet × Link)
      → IsClosed (connected o cfg device_id events r)
  unfolding connected
  connected-IsClosed cfg events (err e, l) =
      give_up-IsClosed (record { link = l; commands = []; failed = none })
  connected-IsClosed cfg events (ok p, l) = stand_of-IsClosed _

  attempt-IsClosed :
      (round : Round) → IsClosed (attempt o decode broker_addr api_base_url device_id round)
  unfolding attempt dial
  attempt-IsClosed round =
      elim (Result-cases
        (ensure_token decode api_base_url device_id round.registered round.issued)) [
          | inl (e, fails) ↦ rw (attempt, fails) tt
          | inr (token, given) ↦ elim (Option-cases round.dialled) [
            | inr (e, fails) ↦ rw (attempt, given, dial, fails) tt
            | inl works ↦ elim (Option-cases round.opened) [
              | inr (e, fails) ↦ rw (attempt, given, dial, works, fails) tt
              | inl opens ↦
                  rw (attempt, given, dial, works, opens) (connected-IsClosed _ round.events _)
            ]
          ]
        ]

  behind-IsClosed :
      (s : Stand) (later : List Stand × Bool)
      → IsClosed s
      → All IsClosed later.0
      → All IsClosed (behind s later).0
  unfolding behind
  behind-IsClosed unopened (stands, b) h k = (tt, k)
  behind-IsClosed (given_up r) (stands, b) h k = (h, k)
  behind-IsClosed (still_running r) later h k = (tt, tt)

  -- `runDevice` closes every stream that it opens before it goes on to another round or returns: of
  -- all rounds it came to, only one whose telemetry loop still runs has an open stream.
  run_device_closes :
      (rounds : List Round)
      → All IsClosed (run_device o decode broker_addr api_base_url device_id rounds).0
  unfolding run_device attempt
  run_device_closes [] = tt
  run_device_closes (round ∷ rounds) = elim (Bool-cases round.done) [
    | inl over ↦ rw (run_device, over) tt
    | inr goes_on ↦
        let closes = attempt-IsClosed round in
        elim (Bool-cases round.slept) [
          | inl slept ↦
              rw (run_device, goes_on, slept)
                (behind-IsClosed _ _ closes (run_device_closes rounds))
          | inr cut ↦ rw (run_device, goes_on, cut) (behind-IsClosed _ ([], true) closes tt)
        ]
  ]

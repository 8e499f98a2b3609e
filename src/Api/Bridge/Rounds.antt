-- ===== src/Api/Bridge/Rounds.antt =====
-- When `Start` of the bridge returns.
use carbmq_core.Base.{
  pos, String, Bool, List, [], ◌∷◌, Option, none, some, if◌then◌else◌, ◌≡◌, refl, ap, ◌∙◌, ◌==◌,
  Bool-cases, inl, inr,
}
use carbmq_core.Errors.{Error, Result, ok, err, Result-cases}
use carbmq_core.Qtt.Packet.{packet_sub_ack}
use carbmq_core.Qtt.Client.{Config, Outside, connect, subscribe, read_packet, dial}
use carbmq_core.Auth.Jwt.{JwtLib, Service, issue_admin_token}
use carbmq_core.Config.{Config as Settings}
use carbmq_core.Api.Bridge.{
  Bridge, Round, Turn, continues, returns, telemetry_filter, served, attempt, take_turn, start,
}

-- what a sleep makes of a round
abbrev woken : Bool → Turn
woken slept = if slept then continues else returns none

-- Whatever fails or does not, a round with a client ends by its sleep.
served_sleeps :
    (o : Outside) (cfg : Config) (round : Round) (b : Bridge)
    → (served o cfg round b).0 ≡ woken round.slept
unfolding served
served_sleeps o cfg round b =
    let first = connect o cfg (("role", "bridge") ∷ []) round.link in
    elim (Result-cases first.0) [
      | inl (e, fails) ↦ rw (served, fails) refl
      | inr (a, works) ↦
          let second = subscribe o cfg (telemetry_filter ∷ []) first.1 in
          elim (Result-cases second.0) [
            | inl (e, fails) ↦ rw (served, works, fails) refl
            | inr (c, works') ↦ elim (Result-cases (read_packet second.1).0) [
              | inl (e, fails) ↦ rw (served, works, works', fails) refl
              | inr (p, reads) ↦ elim (Bool-cases (p.type == packet_sub_ack)) [
                | inl acks ↦ rw (served, works, works', reads, acks) refl
                | inr other ↦ rw (served, works, works', reads, other) refl
              ]
            ]
          ]
    ]

attempt_sleeps :
    (cfg : Settings) (o : Outside) (token : String) (round : Round) (b : Bridge)
    → (attempt cfg o token round b).0 ≡ woken round.slept
unfolding attempt
attempt_sleeps cfg o token round b =
    elim (Result-cases (
      dial round.dialled round.opened (record {
        addr = cfg.api.broker_addr;
        client_id = cfg.api.bridge_client_id;
        token = token;
        protocol_name = cfg.broker.protocol_name;
        write_timeout = pos 0;
        read_timeout = pos 0;
      }))) [
        | inl (e, fails) ↦ rw (attempt, fails) refl
        | inr (kept, dials) ↦ rw (attempt, dials) (served_sleeps o kept round b)
      ]

module _ (lib : JwtLib) (auth : Service) (cfg : Settings) where
  -- a round's token
  abbrev token_of : Round → Result String
  token_of round =
      issue_admin_token lib auth round.now cfg.api.bridge_client_id cfg.auth.admin_token_ttl

  -- When and with what `Start` is to return: in the first round in which the context is done, or the
  -- token cannot be issued, or the sleep is cut short; with the token's error, or else with none.
  abbrev pub return_of : List Round → Option (Option Error)
  return_of [] = none
  return_of (round ∷ rounds) =
      let later = return_of rounds in
      if round.done then some none else elim (token_of round) [
        | err e ↦ some (some e)
        | ok _ ↦ if round.slept then later else some none
      ]

  -- `Start` returns in the first round in which the context is done, the token cannot be issued, or
  -- the sleep at its end is cut short, with the error of the token and else with none; and in no other
  -- round, whatever the broker and the websockets do in it.
  pub start_returns :
      (o : Outside) (rounds : List Round) (b : Bridge)
      → (start lib auth cfg o rounds b).0 ≡ return_of rounds
  unfolding start take_turn
  start_returns o [] b = refl
  start_returns o (round ∷ rounds) b = elim (Bool-cases round.done) [
    | inl done ↦ rw (start, take_turn, done) refl
    | inr runs ↦ elim (Result-cases (token_of round)) [
      | inl (e, fails) ↦ rw (start, take_turn, runs, fails) refl
      | inr (token, issued) ↦
          let ends = attempt_sleeps cfg o token round b in
          elim (Bool-cases round.slept) [
            | inl slept ↦
                let goes : (attempt cfg o token round b).0 ≡ continues = ends ∙ ap woken slept in
                simp (
                  start,
                  take_turn,
                  runs,
                  issued,
                  goes,
                  slept,
                  start_returns o rounds (attempt cfg o token round b).1,
                )
            | inr cut ↦
                let stops : (attempt cfg o token round b).0 ≡ returns none = ends ∙ ap woken cut in
                simp (start, take_turn, runs, issued, stops, cut)
          ]
    ]
  ]

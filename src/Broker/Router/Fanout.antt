-- ===== src/Broker/Router/Fanout.antt =====
-- The whole fan-out of a packet.
use mathlib.Core.List.{Memᴰ, append_assoc, append-nil}
use carbmq_core.Base.{
  ℕ, ◌+◌, pos, ltb_ℤ, String, Bool, false, List, [], ◌∷◌, ◌++◌, Option, none, some, ◌≡◌, refl, ◌⊎◌,
  inl, inr, arith, ap, sym, ◌∙◌, subst, All, All-map_pred, length,
}
use carbmq_core.Db.Tables.Rows.{mem-append_last, mem-append_left}
use carbmq_core.Errors.{Error, Result, ok, err}
use carbmq_core.Qtt.Packet.{Packet}
use carbmq_core.Broker.Session.{Session, ConnId, get}
use carbmq_core.Broker.Session
use carbmq_core.Broker.Subscription.{Match}
use carbmq_core.Broker.State.{Env, Server}
use carbmq_core.Broker.Router.{outbound_for, deliver, resume, route_matches}
use carbmq_core.Broker.Router.Delivery.{Keeps, Keeps-refl, Keeps-trans, deliver-Keeps}
use carbmq_core.Broker.Router.Outcomes.{
  IsStored, target_conn, Outcome, delivered, kept, broken, deliver-Outcome, deliver-IsStored,
}

module _ (env : Env) (p : Packet) where
  -- What was sent is the copy for a match, on the connection of that match's client.
  abbrev pub SentFor : Session.Store → List Match → ConnId × Packet → Type 0
  SentFor sessions matches (c, q) =
      (m : Match) × Memᴰ m matches
      × (q ≡ outbound_for p m)
      × (target_conn (get m.client_id sessions) ≡ some c)

  -- The new packets of a routing, with what was counted.
  abbrev pub Fanout : Server → List Match → ℕ → (ℕ × Option Error) × Server → Type 0
  Fanout s matches d (r, s') =
      (new : List (ConnId × Packet)) × (s'.sent ≡ s.sent ++ new)
      × (r.0 ≡ d + length new)
      × (s'.metrics.packets_out ≡ s.metrics.packets_out + length new)
      × All (SentFor s.sessions matches) new

  SentFor-cons :
      (sessions : Session.Store) (m : Match) (ms : List Match) (x : ConnId × Packet)
      → SentFor sessions ms x
      → SentFor sessions (m ∷ ms) x
  SentFor-cons sessions m ms x (k, listed, e, to) = (k, Memᴰ.tail listed, e, to)

  nothing_sent :
      (s s' : Server) (ms : List Match) (d : ℕ) (e : Option Error)
      → s'.sent ≡ s.sent
      → s'.metrics.packets_out ≡ s.metrics.packets_out
      → Fanout s ms d ((d, e), s')
  nothing_sent s s' ms d e same counts =
      ([], same ∙ sym (append-nil s.sent), omega arith, omega arith, tt)

  resume-Fanout :
      (m : Match) (ms : List Match) (rest : ℕ → Server → (ℕ × Option Error) × Server)
      (h : (d : ℕ) (s : Server) → Fanout s ms d (rest d s)) (d : ℕ) (s s' : Server)
      {r : Result Bool}
      → Outcome s s' (outbound_for p m) (get m.client_id s.sessions) r
      → Keeps s s'
      → Fanout s (m ∷ ms) d (resume rest d (r, s'))
  unfolding resume
  resume-Fanout m ms rest h d s s' (delivered c to grows counts) k =
      let (new, sent, total, out, made) = h (d + 1) s' in
      (
        (c, outbound_for p m) ∷ new,
        sent ∙ ap (λ l. l ++ new) grows ∙ append_assoc s.sent _ new,
        omega (arith, total),
        omega (arith, out, counts),
        (
          (m, Memᴰ.head refl, refl, to),
          All-map_pred _ (SentFor s.sessions (m ∷ ms))
              (λ x q. SentFor-cons s.sessions m ms x (subst (λ l. SentFor l ms x) k.sessions q)) new
              made,
        ),
      )
  resume-Fanout m ms rest h d s s' (kept same counts _) k =
      let (new, sent, total, out, made) = h d s' in
      (
        new,
        sent ∙ ap (λ l. l ++ new) same,
        total,
        omega (arith, out, counts),
        All-map_pred _ (SentFor s.sessions (m ∷ ms))
            (λ x q. SentFor-cons s.sessions m ms x (subst (λ l. SentFor l ms x) k.sessions q)) new
            made,
      )
  resume-Fanout m ms rest h d s s' (broken e same counts) k =
      nothing_sent s s' (m ∷ ms) d (some e) same counts

  pub route_matches-Fanout :
      (ms : List Match) (d : ℕ) (s : Server) → Fanout s ms d (route_matches env p ms d s)
  unfolding route_matches
  route_matches-Fanout [] d s = nothing_sent s s [] d none refl refl
  route_matches-Fanout (m ∷ ms) d s =
      resume-Fanout m ms (route_matches env p ms) (route_matches-Fanout ms) d s
        (deliver env p m s).1 (deliver-Outcome env p m s) (deliver-Keeps env p m s)

  resume-Keeps :
      (rest : ℕ → Server → (ℕ × Option Error) × Server)
      (h : (d : ℕ) (s : Server) → Keeps s (rest d s).1) (d : ℕ) (s : Server)
      (r : Result Bool × Server)
      → Keeps s r.1
      → Keeps s (resume rest d r).1
  unfolding resume
  resume-Keeps rest h d s (ok b, s') k = Keeps-trans k (h _ s')
  resume-Keeps rest h d s (err e, s') k = k

  pub route_matches-Keeps :
      (ms : List Match) (d : ℕ) (s : Server) → Keeps s (route_matches env p ms d s).1
  unfolding route_matches
  route_matches-Keeps [] d s = Keeps-refl s
  route_matches-Keeps (m ∷ ms) d s =
      resume-Keeps (route_matches env p ms) (route_matches-Keeps ms) d s (deliver env p m s)
        (deliver-Keeps env p m s)

  -- What has become of a match: its client is unknown, its copy has quality of service 0, its copy is
  -- sent, or a row is stored for the packet.
  abbrev pub Handled : Session.Store → Server → Match → Type 0
  Handled sessions s m =
      (get m.client_id sessions ≡ none)
      ⊎ (ltb_ℤ (pos 0) (outbound_for p m).qos ≡ false)
      ⊎ ((c : ConnId) × (target_conn (get m.client_id sessions) ≡ some c)
          × Memᴰ (c, outbound_for p m) s.sent)
      ⊎ IsStored (outbound_for p m).packet_id s

  -- Later rounds only add to what was sent and stored.
  abbrev pub Grows : Server → Server → Type 0
  Grows s s' =
      ((new : List (ConnId × Packet)) × (s'.sent ≡ s.sent ++ new))
      × ((id : String) → IsStored id s → IsStored id s')

  pub Handled-Grows :
      (sessions : Session.Store) (s s' : Server) (m : Match)
      → Grows s s'
      → Handled sessions s m
      → Handled sessions s' m
  Handled-Grows sessions s s' m g (inl a) = inl a
  Handled-Grows sessions s s' m g (inr (inl a)) = inr (inl a)
  Handled-Grows sessions s s' m ((new, e), _) (inr (inr (inl (c, to, listed)))) =
      inr (inr (inl (c, to, rw e (mem-append_left _ new listed))))
  Handled-Grows sessions s s' m (_, stores) (inr (inr (inr a))) = inr (inr (inr (stores _ a)))

  resume-IsStored :
      (id : String) (rest : ℕ → Server → (ℕ × Option Error) × Server)
      (h : (d : ℕ) (s : Server) → IsStored id s → IsStored id (rest d s).1) (d : ℕ)
      (r : Result Bool × Server)
      → IsStored id r.1
      → IsStored id (resume rest d r).1
  unfolding resume
  resume-IsStored id rest h d (ok b, s') k = h _ s' k
  resume-IsStored id rest h d (err e, s') k = k

  route_matches-IsStored :
      (id : String) (ms : List Match) (d : ℕ) (s : Server)
      → IsStored id s
      → IsStored id (route_matches env p ms d s).1
  unfolding route_matches
  route_matches-IsStored id [] d s k = k
  route_matches-IsStored id (m ∷ ms) d s k =
      resume-IsStored id (route_matches env p ms) (route_matches-IsStored id ms) d
        (deliver env p m s) (deliver-IsStored env p m s id k)

  pub route_matches-Grows :
      (ms : List Match) (d : ℕ) (s : Server) → Grows s (route_matches env p ms d s).1
  route_matches-Grows ms d s =
      let (new, sent, _, _, _) = route_matches-Fanout ms d s in
      ((new, sent), λ id. route_matches-IsStored id ms d s)

  -- the round for one match
  pub Outcome-Handled :
      (m : Match) (s s' : Server) {r : Result Bool}
      → Outcome s s' (outbound_for p m) (get m.client_id s.sessions) r
      → (b : Bool) → r ≡ ok b
      → Handled s.sessions s' m
  Outcome-Handled m s s' (delivered c to grows _) b e =
      inr (inr (inl (c, to, rw grows (mem-append_last _ s.sent))))
  Outcome-Handled m s s' (kept _ _ (inl absent)) b e = inl absent
  Outcome-Handled m s s' (kept _ _ (inr (inl zero_qos))) b e = inr (inl zero_qos)
  Outcome-Handled m s s' (kept _ _ (inr (inr stored))) b e = inr (inr (inr stored))
  Outcome-Handled m s s' (broken x _ _) b e = cc

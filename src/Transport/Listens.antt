-- ===== src/Transport/Listens.antt =====
-- What the transport hands on, and under which deadlines.
use carbmq_core.Base.{
  ℤ, pos, ltb_ℤ, Bool, true, false, List, [], ◌∷◌, ◌++◌, Option, none, some, map, ◌≡◌, ◌≢◌, refl,
  ap, arith, eq_iff, if◌then◌else◌,
}
use carbmq_core.Errors.{Error, Result, ok, err, accept_connection, load_key_pair}
use carbmq_core.Config.{BrokerConfig}
use carbmq_core.Qtt.Packet.{Packet, Time}
use carbmq_core.Auth.Jwt.{add_duration}
use carbmq_core.Broker.Session.{ConnId}
use carbmq_core.Transport.{
  Certificate, TlsConfig, tls_config, with_certificate, configured, Accepted, accept_loop, listen,
  Stream, send, encode, uncapped,
}

-- a connection that was accepted
abbrev pub accepts : ConnId → Accepted
accepts conn = record { answer = ok conn; done = false }

accept_loop_hands :
    (conns : List ConnId) (e : Error) (done : Bool) (later : List Accepted)
    → accept_loop (map accepts conns ++ (record { answer = err e; done = done }) ∷ later)
      ≡ (some (if done then none else some (accept_connection e)), conns)
unfolding accept_loop
accept_loop_hands [] e true later = refl
accept_loop_hands [] e false later = refl
accept_loop_hands (c ∷ conns) e done later =
    ap (λ (r : Option (Option Error) × List ConnId). (r.0, c ∷ r.1))
      (accept_loop_hands conns e done later)

-- `Listen` hands every connection that is accepted before the first failing `Accept` to `handleConn`,
-- in order and once, and none behind it; it returns at that failure, without an error just if the
-- context is done then.
listen_hands :
    (tls : TlsConfig) (conns : List ConnId) (e : Error) (done : Bool) (later : List Accepted)
    → listen (ok tls) none (map accepts conns ++ (record { answer = err e; done = done }) ∷ later)
      ≡ (some (if done then none else some (accept_connection e)), conns)
unfolding listen
listen_hands tls conns e done later = accept_loop_hands conns e done later

-- Where both files are named and the pair cannot be loaded, there is no configuration: the broker
-- does not fall back to a certificate of its own.
tls_config_no_fallback :
    (cfg : BrokerConfig) (e : Error) (made : Result Certificate)
    → cfg.cert_file ≢ ""
    → cfg.key_file ≢ ""
    → tls_config cfg (err e) made ≡ err (load_key_pair e)
unfolding tls_config configured
tls_config_no_fallback cfg e made cert key =
    ground (arith, eq_iff cfg.cert_file "", eq_iff cfg.key_file "")

-- Every configuration offers the one protocol of the settings, by TLS 1.3 or later.
tls_config_pins :
    (cfg : BrokerConfig) (loaded made : Result Certificate) (tls : TlsConfig)
    → tls_config cfg loaded made ≡ ok tls
    → (tls.next_protos ≡ cfg.protocol_name ∷ []) × (tls.min_version ≡ 0x0304)
unfolding tls_config configured with_certificate
tls_config_pins cfg (err e) (err f) tls h = ground (arith, h)
tls_config_pins cfg (ok c) (err f) tls h = ground (arith, h)
tls_config_pins cfg (err e) (ok d) tls h = ground (arith, h)
tls_config_pins cfg (ok c) (ok d) tls h = ground (arith, h)

-- With a timeout, a packet is written under the deadline that far from the call, and whether or not
-- the encoder fails, the stream has no write deadline afterwards.
send_under_deadline :
    (write_timeout : ℤ) (now : Time) (fault : Option Error) (packet : Packet) (s : Stream)
    → ltb_ℤ (pos 0) write_timeout ≡ true
    → let (e, s') = send write_timeout now fault packet s in
      (e ≡ fault)
      × (s'.write_deadline ≡ none)
      × (s'.written ≡ elim fault [
        | none ↦ s.written ++ (packet, some (add_duration now write_timeout)) ∷ []
        | some _ ↦ s.written
      ])
unfolding send encode uncapped
send_under_deadline write_timeout now none packet s capped = rw capped (refl, refl, refl)
send_under_deadline write_timeout now (some e) packet s capped = rw capped (refl, refl, refl)

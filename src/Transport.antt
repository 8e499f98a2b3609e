-- ===== src/Transport.antt =====
-- internal/transport/quic/server.go: connections over QUIC. What crypto, x509 and quic-go answer are
-- arguments of the model.
pub mod Listens
use carbmq_core.Base.{
  ◌+◌, ◌-◌, ℕ, ℤ, pos, ltb_ℤ, String, Bool, true, false, ◌&&◌, not, List, [], ◌∷◌, ◌++◌, Option,
  none, some, if◌then◌else◌, ◌==◌,
}
use carbmq_core.Errors.{
  Error, Result, ok, err, wrap, listen_quic, accept_connection, load_key_pair, generate_private_key,
  create_certificate, parse_key_pair,
}
use carbmq_core.Config.{BrokerConfig}
use carbmq_core.Qtt.Packet.{Packet, Time}
use carbmq_core.Auth.Jwt.{add_duration}
use carbmq_core.Broker.Session.{ConnId}

-- A `tls.Certificate`, by identity.
abbrev pub Certificate : Type 0
Certificate = ℕ

pub record TlsConfig : Type 0 where
  pub next_protos : List String
  pub certificates : List Certificate
  pub min_version : ℕ

-- What a certificate is asked for with; the rest of `x509.Certificate` stays zero.
pub record Template : Type 0 where
  pub serial_number : ℕ
  pub not_before : Time
  pub not_after : Time
  pub key_usage : ℕ
  pub server_auth : Bool
  pub ip_addresses : List String
  pub dns_names : List String

-- the template, for digital signatures and for key encipherment, of
-- `generateSelfSignedCertificate`, on the three readings of the clock
unfoldable template : (serial_number : ℕ) → (first second : Time) → Template
template serial_number first second = record {
  serial_number = serial_number;
  not_before = first - 3_600_000_000_000;
  not_after = second + 31_536_000_000_000_000;
  key_usage = 0x05;
  server_auth = true;
  ip_addresses = "127.0.0.1" ∷ [];
  dns_names = "localhost" ∷ [];
}

-- `generateSelfSignedCertificate`, on what `GenerateKey`, `CreateCertificate` and `X509KeyPair` answer
unfoldable generate_self_signed_certificate :
    (generated created : Option Error) → Result Certificate → Result Certificate
generate_self_signed_certificate (some e) created pair = err (generate_private_key e)
generate_self_signed_certificate none (some e) pair = err (create_certificate e)
generate_self_signed_certificate none none (err e) = err (parse_key_pair e)
generate_self_signed_certificate none none (ok certificate) = ok certificate

-- version 1.3
with_certificate : BrokerConfig → Certificate → TlsConfig
with_certificate cfg certificate = record {
  next_protos = cfg.protocol_name ∷ [];
  certificates = certificate ∷ [];
  min_version = 0x0304;
}

configured : BrokerConfig → (Error → Error) → Result Certificate → Result TlsConfig
unfolding with_certificate
configured cfg f (err e) = err (f e)
configured cfg f (ok certificate) = ok (with_certificate cfg certificate)

-- `tlsConfig`, on what `LoadX509KeyPair` and `generateSelfSignedCertificate` answer
unfoldable pub tls_config : BrokerConfig → (loaded made : Result Certificate) → Result TlsConfig
unfolding configured
tls_config cfg loaded made =
    if not (cfg.cert_file == "") && not (cfg.key_file == "")
    then configured cfg load_key_pair loaded
    else configured cfg (λ e. e) made

-- An answer of `Accept`, and whether the context is done then.
pub record Accepted : Type 0 where
  pub answer : Result ConnId
  pub done : Bool

-- the loop of `Listen`: what it returns, if it has, and the connections that it handed to
-- `handleConn`
unfoldable pub accept_loop : List Accepted → Option (Option Error) × List ConnId
accept_loop [] = (none, [])
accept_loop (a ∷ accepted) =
    let (returned, conns) = accept_loop accepted in
    elim a.answer [
      | ok conn ↦ (returned, conn ∷ conns)
      | err e ↦ ((if a.done then some none else some (some (accept_connection e))), [])
    ]

-- `Listen`, on the answers of `tlsConfig` and `ListenAddr`
unfoldable pub listen :
    Result TlsConfig
    → (listened : Option Error) → List Accepted
    → Option (Option Error) × List ConnId
listen (err e) listened accepted = (some (some e), [])
listen (ok tls) (some e) accepted = (some (some (listen_quic e)), [])
listen (ok tls) none accepted = accept_loop accepted

-- What `handleConn` does with a connection: it hands it to the handler, or closes it with a code and
-- a reason.
pub data Handed : Type 0 where
  to_handler : Handed
  closed_with : ℕ → String → Handed

-- `handleConn`, on what `AcceptStream` answers
unfoldable handle_conn : Option Error → Handed
handle_conn none = to_handler
handle_conn (some e) = closed_with 1 "stream error"

-- The stream of a `packetConn`: its deadlines (`none` for the zero time), what was encoded, each
-- with the deadline then, what the decoder gives, and whether it was closed.
pub record Stream : Type 0 where
  pub write_deadline : Option Time
  pub read_deadline : Option Time
  pub written : List (Packet × Option Time)
  pub incoming : List (Result Packet)
  pub closed : Bool

encode : Option Error → Packet → Stream → Option Error × Stream
encode none packet s = (none, record s { written = s.written ++ (packet, s.write_deadline) ∷ [] })
encode (some e) packet s = (some e, s)

uncapped : Option Error × Stream → Option Error × Stream
uncapped (e, s) = (e, record s { write_deadline = none })

-- `Send`; a fault of the encoder, such as a deadline that has passed, is given
unfoldable pub send :
    (write_timeout : ℤ) → (now : Time) → Option Error → Packet → Stream → Option Error × Stream
unfolding encode uncapped
send write_timeout now fault packet s =
    if ltb_ℤ (pos 0) write_timeout
    then uncapped
        (encode fault packet (record s { write_deadline = some (add_duration now write_timeout) }))
    else encode fault packet s

-- `Decode`, on what the decoder gives next
decode : Error → List (Result Packet) → Stream → Result Packet × Stream
decode ends [] s = (err ends, s)
decode ends (read ∷ rest) s = (read, record s { incoming = rest })

unread : Result Packet × Stream → Result Packet × Stream
unread (r, s) = (r, record s { read_deadline = none })

-- `Receive`; `ends` is the error behind the last packet
unfoldable pub receive :
    (read_timeout : ℤ) → (now : Time) → (ends : Error) → Stream → Result Packet × Stream
unfolding decode unread
receive read_timeout now ends s =
    if ltb_ℤ (pos 0) read_timeout
    then unread
        (decode ends s.incoming (record s { read_deadline = some (add_duration now read_timeout) }))
    else decode ends s.incoming s

-- `Close`, on what `CloseWithError` answers
unfoldable pub close : Option Error → Stream → Option Error × Stream
close fault s = (fault, record s { closed = true })

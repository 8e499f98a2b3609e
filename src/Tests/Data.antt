-- ===== src/Tests/Data.antt =====
-- A broker with one device, and a token library that knows one token.
use carbmq_core.Base.{
  ◌*◌, ◌/◌, ◌%◌, ◌+◌, ◌<◌, pos, String, Bool, true, false, ◌&&◌, [], ◌∷◌, none, some, if◌then◌else◌,
  ◌==◌, nat_eq, ◌≡◌, ◌≢◌, refl, arith, sym, subst, eq_iff,
}
use carbmq_core.Errors.{external, Result, ok, err}
use carbmq_core.Qtt.Packet.{Packet, Time, Subscription, zero_packet, packet_publish, packet_connect}
use carbmq_core.Auth.Claims.{Claims}
use carbmq_core.Auth.Jwt.{Method, Token, JwtLib, Service}
use carbmq_core.Auth.Jwt.RoundTrip.{SignsAndParses, IsWhole}
use carbmq_core.Broker.Session.{Session}
use carbmq_core.Broker.State.{Env, Server}
use carbmq_core.Db.Tables.{Tables, Message}

abbrev pub device_claims : Claims
device_claims = record {
  client_id = "d1";
  device_id = "d1";
  role = "device";
  subject = "d1";
  issued_at = 0;
  expires_at = 60_000_000_000;
}

abbrev hs256 : Method
hs256 = record { is_hmac = true; type_name = "*jwt.SigningMethodHMAC" }

abbrev rs256 : Method
rs256 = record { is_hmac = false; type_name = "*jwt.SigningMethodRSA" }

abbrev pub method_of : String → Method
method_of token = if token == "forged" then rs256 else hs256

abbrev same_claims : Claims → Bool
same_claims c =
    c.client_id == "d1"
    && c.device_id == "d1"
    && c.role == "device"
    && c.subject == "d1"
    && nat_eq c.issued_at 0
    && nat_eq c.expires_at 60_000_000_000

abbrev by_key : String → Result String → Result Token
by_key token (err e) = err e
by_key token (ok k) =
    if token == "token"
    then ok (record { claims = some device_claims; valid = true })
    else err (external "token is malformed")

-- a time without the part of a second
abbrev whole : Time → Time
whole t = 1_000_000_000 * (t / 1_000_000_000)

pub whole_is_whole : (t : Time) → whole t % 1_000_000_000 ≡ 0
whole_is_whole t = omega arith

abbrev pub toy_lib : JwtLib
toy_lib = record {
  parse_with_claims = λ now token key. by_key token (key (method_of token));
  signed_string = λ c secret. if same_claims c then ok "token" else err (external "no such token");
  new_numeric_date = whole;
}

same_claims-eq : (c : Claims) → same_claims c ≡ true → c ≡ device_claims
same_claims-eq c h =
    let parts : (c.client_id ≡ "d1")
        × (c.device_id ≡ "d1")
        × (c.role ≡ "device")
        × (c.subject ≡ "d1")
        × (c.issued_at ≡ 0)
        × (c.expires_at ≡ 60_000_000_000) =
      ground (
        arith,
        eq_iff c.client_id "d1",
        eq_iff c.device_id "d1",
        eq_iff c.role "device",
        eq_iff c.subject "d1",
      ) in
    λ i. record {
      client_id = parts.0 i;
      device_id = parts.1 i;
      role = parts.2 i;
      subject = parts.3 i;
      issued_at = parts.4 i;
      expires_at = parts.5 i;
    }

abbrev as_token : Bool → Result String
as_token b = if b then ok "token" else err (external "no such token")

pub signed_same :
    (b : Bool) (token : String) → as_token b ≡ ok token → (b ≡ true) × (token ≡ "token")
signed_same true token h = (refl, ground (arith, h))
signed_same false token h = cc

pub not_blank : (token : String) → token ≡ "token" → token ≢ ""
not_blank token h =
    let ne : ◌≢◌ {A = String} "token" "" = ground (arith, eq_iff "token" "") in
    subst (λ t. t ≢ "") (sym h) ne

pub toy_parses :
    (c : Claims) (secret token : String) (now : Time) (key : Method → Result String)
    → IsWhole c
    → toy_lib.signed_string c secret ≡ ok token
    → key hs256 ≡ ok secret
    → now < c.expires_at
    → toy_lib.parse_with_claims now token key ≡ ok (record { claims = some c; valid = true })
toy_parses c secret token now key dates made its fresh =
    let (same, named) = signed_same (same_claims c) token made in
    rw named (rw its (rw (same_claims-eq c same) refl))

abbrev pub toy_signs : SignsAndParses toy_lib
toy_signs = record {
  hs256 = hs256;
  hs256_is_hmac = refl;
  dates_are_whole = whole_is_whole;
  not_empty = λ c secret token made. not_blank token (signed_same (same_claims c) token made).1;
  parses = toy_parses;
}

abbrev pub service : Service
service = record { secret = "k"; admin_ttl = pos 60_000_000_000; device_ttl = pos 60_000_000_000 }

abbrev pub commands : Subscription
commands = record { topic = "device/d1/command"; qos = pos 1 }

abbrev pub session : Session
session = record {
  client_id = "d1";
  device_id = "d1";
  role = "device";
  claims = device_claims;
  conn = some 7;
  online = true;
  subscriptions = commands ∷ [];
  connected_at = 11;
  last_seen_at = 11;
}

abbrev pub env : Env
env = record {
  clock = λ n. 11 + n;
  new_packet_id = λ n. "new";
  db_fault = λ n. none;
  send_fault = λ n. none;
  client_order = λ n ks. ks;
  jwt = toy_lib;
  jsonb = λ b. b;
}

abbrev pub no_rows : Tables
no_rows = record { devices = []; messages = []; offline_messages = [] }

-- nobody has connected yet
abbrev pub idle : Server
idle = record {
  auth = service;
  sessions = [];
  subscriptions = [];
  tables = no_rows;
  metrics = record {
    packets_in = 0;
    packets_out = 0;
    publishes = 0;
    subscriptions = 0;
    auth_failures = 0;
    rate_limited = 0;
    failed_deliveries = 0;
    active_sessions = 0;
    offline_queue = pos 0;
  };
  limiter = record { limit = pos 2; window = 60; seen = [] };
  calls = 0;
  sent = [];
}

-- the device is online on connection 7 and has its command topic
abbrev pub busy : Server
busy = record idle {
  sessions = ("d1", session) ∷ [];
  subscriptions = ("d1", commands ∷ []) ∷ [];
  metrics = record idle.metrics { active_sessions = 1 };
}

-- a command for the device
abbrev pub command : Packet
command = record zero_packet {
  type = packet_publish;
  packet_id = "p1";
  topic = "device/d1/command";
  qos = pos 1;
}

-- what the device sends of itself
abbrev pub telemetry : Packet
telemetry = record zero_packet {
  type = packet_publish;
  packet_id = "p2";
  topic = "device/d1/telemetry";
  qos = pos 1;
}

abbrev pub connect : Packet
connect = record zero_packet { type = packet_connect; token = "token" }

abbrev pub hello : Message
hello = record {
  packet_id = "p1";
  client_id = "d1";
  topic = "device/d1/telemetry";
  qos = pos 1;
  payload = [];
  packet_type = "PUBLISH";
  direction = "inbound";
  timestamp = 11;
  acknowledged = false;
}

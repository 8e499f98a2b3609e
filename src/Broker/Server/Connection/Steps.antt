-- ===== src/Broker/Server/Connection/Steps.antt =====
-- The broker with its connections, one whole handler at a time in any order. In the program the
-- handlers of different connections also overlap; what holds there is in Interleaved.
use mathlib.Core.List.{Memᴰ}
use carbmq_core.Base.{
  String, Bool, true, false, List, [], ◌∷◌, ◌++◌, Option, none, some, ◌≡◌, ◌≢◌, ◌⊎◌, refl, arith,
  ap, subst, Option-cases, inl, inr, All, All-mem, All-map_pred,
}
use carbmq_core.Errors.{Result, ok, err}
use carbmq_core.Qtt.Packet.{Packet, Subscription}
use carbmq_core.Auth.Claims.{Claims}
use carbmq_core.Broker.Session.{ConnId, is_some, get}
use carbmq_core.Broker.Session.Laws.{is_online}
use carbmq_core.Broker.State.{Env, Server}
use carbmq_core.Broker.Server.{authenticate}
use carbmq_core.Broker.Server.Connection.{handle_packet, finish, opened, start}
use carbmq_core.Broker.Server.Connection.Consistent.{IsValid}
use carbmq_core.Broker.Server.Connection.Quiet.{deliver_offline-Quiet}
use carbmq_core.Broker.Server.Connection.Handlers.{Sound}
use carbmq_core.Broker.Server.Connection.Rounds.{start-Sound, handle_packet-Sound, finish-Sound}
use carbmq_core.Broker.Server.Connection.Accept.{authenticate-Admits}

-- A connection that was let in: the variables of its `handleConnection`.
pub record Live : Type 0 where
  pub conn : ConnId
  pub client : String
  pub claims : Claims

pub record World : Type 0 where
  pub live : List Live
  pub server : Server

-- the connections after one was opened
abbrev pub entered : ConnId → Option (String × Claims) → List Live → List Live
entered conn none live = live
entered conn (some (client, claims)) live =
    (record { conn = conn; client = client; claims = claims }) ∷ live

abbrev pub handled : Env → Live → Packet → Server → Bool × Server
handled env l p s = handle_packet env l.conn l.client l.claims p s

-- What one connection does next: it opens; it handles a packet and goes on; it handles one and ends;
-- or it ends since nothing more is received.
pub data Step (env : Env) : World → World → Type 0 where
  opens :
      (live : List Live) (s : Server) (conn : ConnId) (received : Result Packet)
      → Step env
          (record { live = live; server = s })
          (record {
            live = entered conn (start env conn received s).0 live;
            server = (start env conn received s).1;
          })
  receives :
      (live : List Live) (s : Server) (l : Live) (p : Packet)
      → Memᴰ l live
      → (handled env l p s).0 ≡ true
      → Step env
          (record { live = live; server = s })
          (record { live = live; server = (handled env l p s).1 })
  leaves :
      (before after : List Live) (s : Server) (l : Live) (p : Packet)
      → (handled env l p s).0 ≡ false
      → Step env
          (record { live = before ++ l ∷ after; server = s })
          (record { live = before ++ after; server = finish env l.client (handled env l p s).1 })
  drops :
      (before after : List Live) (s : Server) (l : Live)
      → Step env
          (record { live = before ++ l ∷ after; server = s })
          (record { live = before ++ after; server = finish env l.client s })

-- The worlds that a broker comes to from one with no connections.
pub data Reach (env : Env) (s : Server) : World → Type 0 where
  begin : Reach env s (record { live = []; server = s })
  next : {w v : World} → Reach env s w → Step env w v → Reach env s v

-- A connection whose client has a session, and is the token's device if the token is a device's.
pub record IsServed (s : Server) (l : Live) : Type 0 where
  pub has_session : is_some (get l.client s.sessions) ≡ true
  pub own_device : (l.claims.role ≢ "device") ⊎ (l.claims.device_id ≡ l.client)

pub record IsRunning (w : World) : Type 0 where
  pub valid : IsValid w.server
  pub served : All (IsServed w.server) w.live

IsServed-Sound : {s s' : Server} → Sound s s' → (l : Live) → IsServed s l → IsServed s' l
IsServed-Sound h l k = record {
  has_session = h.stays l.client k.has_session;
  own_device = k.own_device;
}

All-Sound :
    {s s' : Server}
    → Sound s s'
    → (live : List Live) → All (IsServed s) live
    → All (IsServed s') live
All-Sound {s} {s'} h live k = All-map_pred (IsServed s) (IsServed s') (IsServed-Sound h) live k

All-without :
    (P : Live → Type 0) (before after : List Live) {l : Live}
    → All P (before ++ l ∷ after)
    → P l × All P (before ++ after)
All-without P [] after k = k
All-without P (x ∷ before) after k =
    let (p, rest) = All-without P before after k.1 in (p, (k.0, rest))

online_is_some :
    (client : String) (s : Server)
    → is_online (get client s.sessions) ≡ true
    → is_some (get client s.sessions) ≡ true
online_is_some client s h = elim (Option-cases (get client s.sessions)) [
  | inl absent ↦ ground (arith, absent, h)
  | inr (x, there) ↦ ground (arith, there)
]

opened-IsServed :
    (env : Env) (conn : ConnId) (received : Result Packet) (s : Server)
    (r : Result (String × Claims × List Subscription) × Server)
    → authenticate env conn received s ≡ r
    → (live : List Live) → All (IsServed (opened env conn r).1) live
    → All (IsServed (opened env conn r).1) (entered conn (opened env conn r).0 live)
unfolding opened
opened-IsServed env conn received s (err e, s') same live k = k
opened-IsServed env conn received s (ok (client, claims, subs), s') same live k =
    let (admitted, stored) =
      authenticate-Admits env conn received s client claims subs (ap (λ r. r.0) same) in
    let online =
      subst
        (λ (r : Result (String × Claims × List Subscription) × Server).
          is_online (get client r.1.sessions) ≡ true)
        same stored.online in
    let sent = (deliver_offline-Quiet env client conn s').sessions in
    (
      record {
        has_session = rw sent (online_is_some client s' online);
        own_device = admitted.identified.own_device;
      },
      k,
    )

Step-IsRunning : (env : Env) {w v : World} → Step env w v → IsRunning w → IsRunning v
unfolding start
Step-IsRunning env (opens live s conn received) h =
    let sound = start-Sound env conn received s h.valid in
    record {
      valid = sound.valid;
      served =
          opened-IsServed env conn received s (authenticate env conn received s) refl live
            (All-Sound sound live h.served);
    }
Step-IsRunning env (receives live s l p listed goes_on) h =
    let its = All-mem (IsServed s) live h.served listed in
    let sound = handle_packet-Sound env l.conn l.client l.claims p s its.has_session h.valid in
    record { valid = sound.valid; served = All-Sound sound live h.served }
Step-IsRunning env (leaves before after s l p ends) h =
    let (its, others) = All-without (IsServed s) before after h.served in
    let sound = handle_packet-Sound env l.conn l.client l.claims p s its.has_session h.valid in
    let over = finish-Sound env l.client (handled env l p s).1 sound.valid in
    record {
      valid = over.valid;
      served = All-Sound over (before ++ after) (All-Sound sound (before ++ after) others);
    }
Step-IsRunning env (drops before after s l) h =
    let over = finish-Sound env l.client s h.valid in
    record {
      valid = over.valid;
      served = All-Sound over (before ++ after) (All-without (IsServed s) before after h.served).1;
    }

-- While handlers are run one at a time, a valid broker's registry has of every client the filters
-- of its session, each topic once; a session is online just if it has a connection; the gauge of
-- active sessions is the number of online sessions; no two rows of the offline queue have one packet
-- id; and every live connection belongs to a client with a session, which is the device of its token
-- if the token is a device's.
pub Reach-IsRunning : (env : Env) (s : Server) (w : World) → IsValid s → Reach env s w → IsRunning w
Reach-IsRunning env s _ h begin = record { valid = h; served = tt }
Reach-IsRunning env s v h (next r step) = Step-IsRunning env step (Reach-IsRunning env s _ h r)

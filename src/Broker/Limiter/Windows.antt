-- ===== src/Broker/Limiter/Windows.antt =====
-- How many packets of a client pass in one window of time.
use Prim.Native.Nat.{min}
use carbmq_core.Base.{
  ℕ, suc, ◌+◌, ◌-◌, ◌≤◌, ◌<◌, pos, pos_part, ◌+ℤ◌, String, true, false, List, [], ◌∷◌, none, some,
  if◌then◌else◌, ◌≡◌, ◌≢◌, ◌⊎◌, inl, inr, arith, eq_iff, eq_refl, str_eq-cases, ◌==◌, All,
  Bool-cases, Option-cases, leb, ap, ◌∙◌, sym,
}
use carbmq_core.Base.Assoc.{lookup, lookup-insert}
use carbmq_core.Qtt.Packet.{Time}
use carbmq_core.Broker.Limiter.{RateWindow, RateLimiter, start_window, allow}

-- The calls of all clients, in the order in which they get the mutex.
abbrev pub Calls : Type 0
Calls = List (Time × String)

-- how many of the calls of a client there are, and how many are allowed
unfoldable pub calls_of : String → Calls → ℕ
calls_of client [] = 0
calls_of client ((now, other) ∷ calls) =
    let rest = calls_of client calls in if other == client then suc rest else rest

unfoldable pub allowed_of : String → Calls → RateLimiter → ℕ
allowed_of client [] r = 0
allowed_of client ((now, other) ∷ calls) r =
    let (passed, r') = allow now other r in
    let rest = allowed_of client calls r' in
    if other == client then (if passed then suc rest else rest) else rest

allow-settings :
    (now : Time) (client : String) (r : RateLimiter)
    → ((allow now client r).1.limit ≡ r.limit) × ((allow now client r).1.window ≡ r.window)
unfolding allow
allow-settings now client r = ground arith

-- A call of another client leaves the window of this one alone.
allow_other :
    (now : Time) (client other : String) (r : RateLimiter)
    → other ≢ client
    → lookup client (allow now other r).1.seen ≡ lookup client r.seen
unfolding allow
allow_other now client other r h = elim (Option-cases (lookup other r.seen)) [
  | inl absent ↦
      ground (arith, lookup-insert other client (start_window r now) r.seen, eq_iff other client)
  | inr (entry, found) ↦ ground (
    arith,
    found,
    lookup-insert other client (start_window r now) r.seen,
    lookup-insert other client (record entry { count = entry.count +ℤ pos 1 }) r.seen,
    eq_iff other client,
  )
]

-- The window of a client is open at `reset` with `k` packets counted.
abbrev HasOpen : String → Time → ℕ → RateLimiter → Type 0
HasOpen client reset k r = lookup client r.seen ≡ some (record { reset_at = reset; count = pos k })

allow_full :
    (now reset : Time) (client : String) (k : ℕ) (r : RateLimiter)
    → HasOpen client reset k r
    → now ≤ reset
    → pos_part r.limit ≤ k
    → allow now client r ≡ (false, r)
unfolding allow
allow_full now reset client k r open_at t full = ground (arith, open_at)

allow_counts :
    (now reset : Time) (client : String) (k : ℕ) (r : RateLimiter)
    → HasOpen client reset k r
    → now ≤ reset
    → k < pos_part r.limit
    → ((allow now client r).0 ≡ true) × HasOpen client reset (suc k) (allow now client r).1
unfolding allow ◌+ℤ◌
allow_counts now reset client k r open_at t free = ground (
  arith,
  open_at,
  lookup-insert client client (record { reset_at = reset; count = pos k +ℤ pos 1 }) r.seen,
  eq_refl client,
)

-- While the window is open, what is left of the limit passes, and no more.
allowed_of_open :
    (client : String) (reset : Time) (k : ℕ) (calls : Calls) (r : RateLimiter)
    → HasOpen client reset k r
    → All (λ c. c.0 ≤ reset) calls
    → allowed_of client calls r ≡ min (calls_of client calls) (pos_part r.limit - k)
unfolding allowed_of calls_of
allowed_of_open client reset k [] r open_at h = omega arith
allowed_of_open client reset k ((now, other) ∷ calls) r open_at (t, h) =
    let r' = (allow now other r).1 in
    let (limit_kept, _) = allow-settings now other r in
    elim (str_eq-cases other client) [
      | inr (differs, ne) ↦
          let still : HasOpen client reset k r' = allow_other now client other r ne ∙ open_at in
          ground (arith, differs, limit_kept, allowed_of_open client reset k calls r' still h)
      | inl (same, e) ↦
          let its : HasOpen other reset k r = ap (λ c. lookup c r.seen) e ∙ open_at in
          elim (Bool-cases (leb (pos_part r.limit) k)) [
            | inl full ↦
                let refused = allow_full now reset other k r its t (ground arith) in
                ground (arith, same, refused, allowed_of_open client reset k calls r open_at h)
            | inr free ↦
                let (passed, later) = allow_counts now reset other k r its t (ground arith) in
                let its' : HasOpen client reset (suc k) r' =
                  ap (λ c. lookup c r'.seen) (sym e) ∙ later in
                ground (
                  arith,
                  same,
                  passed,
                  limit_kept,
                  allowed_of_open client reset (suc k) calls r' its' h,
                )
          ]
    ]

-- A client has no window, or one that is over.
abbrev NeedsWindow : String → Time → RateLimiter → Type 0
NeedsWindow client now r =
    (lookup client r.seen ≡ none)
    ⊎ ((w : RateWindow) × (lookup client r.seen ≡ some w) × (w.reset_at < now))

allow_fresh :
    (now : Time) (client : String) (r : RateLimiter)
    → NeedsWindow client now r
    → ((allow now client r).0 ≡ true) × HasOpen client (now + r.window) 1 (allow now client r).1
unfolding allow
allow_fresh now client r (inl absent) =
    ground (arith, absent, lookup-insert client client (start_window r now) r.seen, eq_refl client)
allow_fresh now client r (inr (w, found, over)) =
    ground
      (arith, found, over, lookup-insert client client (start_window r now) r.seen, eq_refl client)

-- From the packet that starts a client's window until the window ends, whatever other clients send,
-- the first packet passes, and of those after it as many as the limit leaves, and no more.
pub allowed_of_window :
    (client : String) (now : Time) (calls : Calls) (r : RateLimiter)
    → NeedsWindow client now r
    → All (λ c. c.0 ≤ now + r.window) calls
    → allowed_of client ((now, client) ∷ calls) r
      ≡ 1 + min (calls_of client calls) (pos_part r.limit - 1)
unfolding allowed_of
allowed_of_window client now calls r fresh h =
    let (passed, open_at) = allow_fresh now client r fresh in
    let (limit_kept, _) = allow-settings now client r in
    ground (
      arith,
      passed,
      limit_kept,
      eq_refl client,
      allowed_of_open client (now + r.window) 1 calls (allow now client r).1 open_at h,
    )

-- ===== src/Broker/Limiter.antt =====
-- internal/broker/server/limiter.go: a fixed window of time for each client.
pub mod Windows
use carbmq_core.Base.{
  ℕ, ◌+◌, ℤ, pos, leb_ℤ, ◌+ℤ◌, ltb, String, Bool, true, false, not, ◌||◌, List, [], ◌∷◌, Option,
  none, some, if◌then◌else◌,
}
use carbmq_core.Base.Assoc.{lookup, insert}
use carbmq_core.Qtt.Packet.{Time}

pub record RateWindow : Type 0 where
  pub reset_at : Time
  pub count : ℤ

-- `window` is `time.Minute` in the program, so it is no negative duration.
pub record RateLimiter : Type 0 where
  pub limit : ℤ
  pub window : ℕ
  pub seen : List (String × RateWindow)

-- `newRateLimiter`
unfoldable pub new_rate_limiter : ℤ → ℕ → RateLimiter
new_rate_limiter limit window = record { limit = limit; window = window; seen = [] }

start_window : RateLimiter → Time → RateWindow
start_window r now = record { reset_at = now + r.window; count = pos 1 }

-- `Allow`, with its reading of the clock; the mutex is held throughout.
unfoldable pub allow : Time → String → RateLimiter → Bool × RateLimiter
unfolding start_window
allow now client_id r = elim (lookup client_id r.seen) [
  | none ↦ (true, record r { seen = insert client_id (start_window r now) r.seen })
  | some entry ↦
      if ltb entry.reset_at now
      then (true, record r { seen = insert client_id (start_window r now) r.seen })
      else if leb_ℤ r.limit entry.count
      then (false, r)
      else (
        true,
        record r { seen = insert client_id (record entry { count = entry.count +ℤ pos 1 }) r.seen },
      )
]

-- ===== src/Health.antt =====
-- crates/worker/src/health.rs: whether the poll loop of a worker is alive. Durations and instants
-- are milliseconds.
pub mod Alive
use invokr.Base.{ℕ, ◌-◌, ◌*◌, ◌%◌, ◌^◌, Bool, max, leb, ◌||◌, ◌==◌}

unfoldable pub stale_after : ℕ → ℕ → ℕ
stale_after poll_interval floor = max floor (poll_interval * 10)

unfoldable pub poller_ok : ℕ → ℕ → ℕ → Bool
poller_ok last_tick_ago stale available_permits = leb last_tick_ago stale || available_permits == 0

pub record WorkerHealth : Type 0 where
  pub started : ℕ
  pub last_tick_ms : ℕ
  pub available_permits : ℕ
  pub stale : ℕ

-- `now` is the instant of `Instant::now()`, and `as u64` cuts to 64 bits.
abbrev pub new : ℕ → ℕ → ℕ → ℕ → WorkerHealth
new now max_concurrent poll_interval stale_floor = record {
  started = now;
  last_tick_ms = 0;
  available_permits = max_concurrent;
  stale = stale_after poll_interval stale_floor;
}

abbrev now_ms : ℕ → WorkerHealth → ℕ
now_ms now h = (now - h.started) % 2 ^ 64

unfoldable pub tick : ℕ → WorkerHealth → WorkerHealth
tick now h = record h { last_tick_ms = now_ms now h }

-- `saturating_sub`.
unfoldable pub last_tick_ago : ℕ → WorkerHealth → ℕ
last_tick_ago now h = now_ms now h - h.last_tick_ms

unfoldable pub is_ok : ℕ → WorkerHealth → Bool
is_ok now h = poller_ok (last_tick_ago now h) h.stale h.available_permits

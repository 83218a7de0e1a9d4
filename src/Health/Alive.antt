-- ===== src/Health/Alive.antt =====
-- When a worker is reported as alive.
use invokr.Base.{ℕ, ◌-◌, ◌^◌, ◌≤◌, ◌<◌, ◌≡◌, ◌↔◌, ◌⊎◌, true, arith}
use invokr.Health.{WorkerHealth, tick, is_ok, last_tick_ago, poller_ok}

-- A worker is reported as alive after a tick exactly as long as the tick is not older than the
-- limit, or every permit is taken, within the 2^64 milliseconds that its clock counts.
is_ok-tick :
    (now past : ℕ) (h : WorkerHealth)
    → h.started ≤ past
    → past ≤ now
    → now - h.started < 2 ^ 64
    → (is_ok now (tick past h) ≡ true) ↔ ((now - past ≤ h.stale) ⊎ (h.available_permits ≡ 0))
unfolding is_ok tick last_tick_ago poller_ok
is_ok-tick now past h begun later small = ground arith

-- ===== src/Poller/Run/Permits.antt =====
-- That a worker has no more rounds in flight than its permits, and starts none once it shuts down
-- (crates/worker/src/poller.rs).
use invokr.Base.{ℕ, zero, suc, ◌+◌, ◌≤◌, ◌≡◌, refl, ◌≢◌, Bool, true, false, arith}
use invokr.Poller.Run.{
  Phase, looping, sleeping, choosing, looking, backing_off, draining, stopped, Loop, start, Step,
  shut_down, begin_turn, wake, stop_sleeping, acquire, stop_choosing, fail_to_look, retry_turn,
  stop_backing_off, spawn, mark_idle, end_task, drained, time_out, Reach, here, next,
}

-- The permit that the loop holds itself.
abbrev pub held : Phase → ℕ
held looking = 1
held looping = 0
held sleeping = 0
held choosing = 0
held backing_off = 0
held draining = 0
held stopped = 0

-- Every permit is free, held by the loop or held by a task.
abbrev pub IsBalanced : ℕ → Loop → Type 0
IsBalanced max l = l.permits + l.in_flight + held l.phase ≡ max

Step-IsBalanced : {max : ℕ} {l m : Loop} → Step max l m → IsBalanced max l → IsBalanced max m
Step-IsBalanced (shut_down l) b = b
Step-IsBalanced (begin_turn l at) b = ground (arith, b, at)
Step-IsBalanced (wake l at) b = ground (arith, b, at)
Step-IsBalanced (stop_sleeping l at c) b = ground (arith, b, at)
Step-IsBalanced (acquire l n at free) b = ground (arith, b, at, free)
Step-IsBalanced (stop_choosing l at c) b = ground (arith, b, at)
Step-IsBalanced (fail_to_look l at) b = ground (arith, b, at)
Step-IsBalanced (retry_turn l at) b = ground (arith, b, at)
Step-IsBalanced (stop_backing_off l at c) b = ground (arith, b, at)
Step-IsBalanced (spawn l at) b = ground (arith, b, at)
Step-IsBalanced (mark_idle l n busy) b = b
Step-IsBalanced (end_task l n busy) b = omega (arith, b, busy)
Step-IsBalanced (drained l at all) b = ground (arith, b, at)
Step-IsBalanced (time_out l at) b = ground (arith, b, at)

Reach-IsBalanced : {max : ℕ} {s l : Loop} → IsBalanced max s → Reach max s l → IsBalanced max l
Reach-IsBalanced b here = b
Reach-IsBalanced b (next r st) = Step-IsBalanced st (Reach-IsBalanced b r)

Reach-join : {max : ℕ} {a b c : Loop} → Reach max a b → Reach max b c → Reach max a c
Reach-join r here = r
Reach-join r (next q st) = next (Reach-join r q) st

-- The loop has been left.
abbrev pub is_over : Phase → Bool
is_over draining = true
is_over stopped = true
is_over looping = false
is_over sleeping = false
is_over choosing = false
is_over looking = false
is_over backing_off = false

held-over : (p : Phase) → is_over p ≡ true → held p ≡ 0
held-over draining o = refl
held-over stopped o = refl
held-over looping o = absurd (let h : false ≡ true = o in cc)
held-over sleeping o = absurd (let h : false ≡ true = o in cc)
held-over choosing o = absurd (let h : false ≡ true = o in cc)
held-over looking o = absurd (let h : false ≡ true = o in cc)
held-over backing_off o = absurd (let h : false ≡ true = o in cc)

-- A step past the loop starts no task.
Step-over :
    {max : ℕ} {l m : Loop}
    → Step max l m
    → is_over l.phase ≡ true
    → (is_over m.phase ≡ true) × (m.in_flight ≤ l.in_flight)
Step-over (shut_down l) o = (o, omega arith)
Step-over (begin_turn l at) o = absurd (let h = rw at at o in cc)
Step-over (wake l at) o = absurd (let h = rw at at o in cc)
Step-over (stop_sleeping l at c) o = (refl, omega arith)
Step-over (acquire l n at free) o = absurd (let h = rw at at o in cc)
Step-over (stop_choosing l at c) o = (refl, omega arith)
Step-over (fail_to_look l at) o = absurd (let h = rw at at o in cc)
Step-over (retry_turn l at) o = absurd (let h = rw at at o in cc)
Step-over (stop_backing_off l at c) o = (refl, omega arith)
Step-over (spawn l at) o = absurd (let h = rw at at o in cc)
Step-over (mark_idle l n busy) o = (o, omega arith)
Step-over (end_task l n busy) o = (o, omega (arith, busy))
Step-over (drained l at all) o = (refl, omega arith)
Step-over (time_out l at) o = (refl, omega arith)

Reach-over :
    {max : ℕ} {l m : Loop}
    → Reach max l m
    → is_over l.phase ≡ true
    → (is_over m.phase ≡ true) × (m.in_flight ≤ l.in_flight)
Reach-over here o = (o, omega arith)
Reach-over (next r st) o =
    let before = Reach-over r o in
    let after = Step-over st before.0 in (after.0, omega (arith, before.1, after.1))

-- In whatever order a worker's sleeps, looks, tasks and shutdown come: once the loop is left, the
-- tasks in flight and the free permits are its permits together, the loop is not entered again and
-- no task is started.
pub run_over :
    (max : ℕ) (l m : Loop)
    → Reach max (start max) l
    → Reach max l m
    → is_over l.phase ≡ true
    → (m.in_flight + m.permits ≡ max) × (is_over m.phase ≡ true) × (m.in_flight ≤ l.in_flight)
run_over max l m before after over =
    let kept = Reach-over after over in
    let b : m.permits + m.in_flight + held m.phase ≡ max =
      Reach-IsBalanced (omega arith) (Reach-join before after) in
    let none = held-over m.phase kept.0 in (omega (arith, b, none), kept.0, kept.1)

-- The tasks in flight end, and the function with them.
drain :
    (k max : ℕ) (l : Loop)
    → l.in_flight ≡ k
    → l.phase ≡ draining
    → IsBalanced max l
    → (u : Loop) × Reach max l u × (u.phase ≡ stopped) × (u.in_flight ≡ 0)
drain zero max l none at b = (_, next here (drained l at (ground (arith, b, none, at))), refl, none)
drain (suc k) max l busy at b =
    let st = end_task l k busy in
    let rest = drain k max _ refl at (Step-IsBalanced st b) in
    (rest.0, Reach-join (next here st) rest.1, rest.2, rest.3)

abbrev CanLeave : ℕ → Loop → Type 0
CanLeave max l = (m : Loop) × Reach max l m × (m.phase ≡ draining)

leave :
    (max : ℕ) (p : Phase) (l : Loop)
    → l.phase ≡ p
    → l.cancelled ≡ true
    → l.phase ≢ stopped
    → CanLeave max l
leave max looping l at c run = awake l.idle refl
  where
    awake : (b : Bool) → l.idle ≡ b → CanLeave max l
    awake true idle =
        (_, next (next here (begin_turn l at)) (stop_sleeping _ (rw idle refl) c), refl)
    awake false busy =
        (_, next (next here (begin_turn l at)) (stop_choosing _ (rw busy refl) c), refl)
leave max sleeping l at c run = (_, next here (stop_sleeping l at c), refl)
leave max choosing l at c run = (_, next here (stop_choosing l at c), refl)
leave max looking l at c run =
    (_, next (next here (fail_to_look l at)) (stop_backing_off _ refl c), refl)
leave max backing_off l at c run = (_, next here (stop_backing_off l at c), refl)
leave max draining l at c run = (l, here, at)
leave max stopped l at c run = absurd (run at)

-- A worker that is told to shut down, at whatever point before its end, can reach the end of the
-- function with no task in flight.
run_stops :
    (max : ℕ) (l : Loop)
    → Reach max (start max) l
    → l.cancelled ≡ true
    → l.phase ≢ stopped
    → (u : Loop) × Reach max l u × (u.phase ≡ stopped) × (u.in_flight ≡ 0)
run_stops max l r c run =
    let left = leave max l.phase l refl c run in
    let b = Reach-IsBalanced (omega arith) (Reach-join r left.1) in
    let ended = drain _ max left.0 refl left.2 b in
    (ended.0, Reach-join left.1 ended.1, ended.2, ended.3)

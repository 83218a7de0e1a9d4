-- ===== src/Poller/Run.antt =====
-- The loop of a worker: `run` of crates/worker/src/poller.rs, by the points at which it waits and
-- what it may wait for. The order of ready events is the runtime's choice, so a step may be taken
-- whenever it is possible.
pub mod Permits
use invokr.Base.{ℕ, suc, ◌+◌, ◌≡◌, Bool, true, false, if◌then◌else◌}

pub data Phase : Type 0 where
  -- At the head of the loop, in its sleep, at the choice between a permit and the end, at the look
  -- for schemas with a permit in hand, and in the sleep after a failed look.
  looping sleeping choosing looking backing_off : Phase
  -- Waiting for the tasks in flight, and at the end of the function.
  draining stopped : Phase

pub record Loop : Type 0 where
  pub phase : Phase
  pub permits : ℕ
  pub in_flight : ℕ
  pub idle : Bool
  pub cancelled : Bool

abbrev pub start : ℕ → Loop
start max_concurrent = record {
  phase = looping;
  permits = max_concurrent;
  in_flight = 0;
  idle = false;
  cancelled = false;
}

-- `max` is `max_concurrent`.
pub data Step (max : ℕ) : Loop → Loop → Type 0 where
  shut_down : (l : Loop) → Step max l (record l { cancelled = true })
  begin_turn :
      (l : Loop)
      → l.phase ≡ looping
      → Step max l (record l { phase = if l.idle then sleeping else choosing })
  wake : (l : Loop) → l.phase ≡ sleeping → Step max l (record l { phase = choosing; idle = false })
  stop_sleeping :
      (l : Loop)
      → l.phase ≡ sleeping
      → l.cancelled ≡ true
      → Step max l (record l { phase = draining })
  acquire :
      (l : Loop) (n : ℕ)
      → l.phase ≡ choosing
      → l.permits ≡ suc n
      → Step max l (record l { phase = looking; permits = n })
  stop_choosing :
      (l : Loop)
      → l.phase ≡ choosing
      → l.cancelled ≡ true
      → Step max l (record l { phase = draining })
  -- The schemas cannot be read: the permit goes back.
  fail_to_look :
      (l : Loop)
      → l.phase ≡ looking
      → Step max l (record l { phase = backing_off; permits = l.permits + 1 })
  retry_turn : (l : Loop) → l.phase ≡ backing_off → Step max l (record l { phase = looping })
  stop_backing_off :
      (l : Loop)
      → l.phase ≡ backing_off
      → l.cancelled ≡ true
      → Step max l (record l { phase = draining })
  spawn :
      (l : Loop)
      → l.phase ≡ looking
      → Step max l (record l { phase = looping; in_flight = l.in_flight + 1 })
  -- A task that has found no work makes the loop idle, before it ends.
  mark_idle : (l : Loop) (n : ℕ) → l.in_flight ≡ suc n → Step max l (record l { idle = true })
  -- A task ends and gives its permit back.
  end_task :
      (l : Loop) (n : ℕ)
      → l.in_flight ≡ suc n
      → Step max l (record l { in_flight = n; permits = l.permits + 1 })
  drained :
      (l : Loop) → l.phase ≡ draining → l.permits ≡ max → Step max l (record l { phase = stopped })
  time_out : (l : Loop) → l.phase ≡ draining → Step max l (record l { phase = stopped })

pub data Reach (max : ℕ) (s : Loop) : Loop → Type 0 where
  here : Reach max s s
  next : {t u : Loop} → Reach max s t → Step max t u → Reach max s u

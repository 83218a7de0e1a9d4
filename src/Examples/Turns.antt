-- ===== src/Examples/Turns.antt =====
-- The loop of a worker, tried with two permits.
use invokr.Base.{◌≡◌, ◌≤◌, ◌+◌, refl, true, false}
use invokr.Poller.Run.{
  choosing, draining, Loop, start, shut_down, begin_turn, acquire, stop_choosing, spawn, end_task,
  Reach, here, next,
}
use invokr.Poller.Run.Permits.{is_over, run_over}

-- One task is in flight and the loop is at the choice of its second turn when the worker is told to
-- shut down.
abbrev told : Loop
told = record { phase = choosing; permits = 1; in_flight = 1; idle = false; cancelled = true }

reach_told : Reach 2 (start 2) told
reach_told =
    next
      (next
        (next (next (next here (begin_turn (start 2) refl)) (acquire _ 1 refl refl)) (spawn _ refl))
        (begin_turn _ refl))
      (shut_down _)

-- The loop is left with the task in flight, which ends after it.
abbrev left : Loop
left = record { phase = draining; permits = 1; in_flight = 1; idle = false; cancelled = true }

abbrev ended : Loop
ended = record { phase = draining; permits = 2; in_flight = 0; idle = false; cancelled = true }

run_over_example :
    (ended.in_flight + ended.permits ≡ 2)
    × (is_over ended.phase ≡ true)
    × (ended.in_flight ≤ left.in_flight)
run_over_example =
    run_over 2 left ended (next reach_told (stop_choosing told refl refl))
      (next here (end_task left 0 refl)) refl

-- ===== src/Handlers/Status/Counts.antt =====
-- What the status of a job says of its executions (crates/api/src/handlers/jobs.rs).
use invokr.Base.{
  ◌+◌, ◌≤◌, ◌≡◌, refl, sym, ◌∙◌, String, Bool, true, false, ◌&&◌, some, List, [], ◌∷◌, head?, find?,
  keep, take, take-all, length, arith, Bool-cases, inl, inr,
}
use invokr.Base.Result.{ok}
use invokr.Store.{Store, Job, Execution, cancelled}
use invokr.Store.Conn.{begin, query}
use invokr.Executions.{of_job, newest}
use invokr.Executions.Newest.{insert, newest_first, list_for_job, find-newest_first}
use invokr.Jobs.{has_job_id}
use invokr.Jobs as Jobs
use invokr.Handlers.Status.{
  JobReport, is_waiting, is_running, is_active, is_succeeded, is_failed, has_outcome, count, health,
  report, status,
}

abbrev pub is_cancelled : Execution → Bool
is_cancelled e = elim e.status [ cancelled ↦ true | _ ↦ false ]

-- A row that is counted is one of the job.
abbrev pub both : (Execution → Bool) → (Execution → Bool) → Execution → Bool
both q p e = q e && p e

length-insert : (e : Execution) (xs : List Execution) → length (insert e xs) ≡ length (e ∷ xs)
length-insert e [] = refl
length-insert e (x ∷ xs) = ground (arith, length-insert e xs)

length-newest_first : (xs : List Execution) → length (newest_first xs) ≡ length xs
length-newest_first [] = refl
length-newest_first (x ∷ xs) =
    omega (arith, length-insert x (newest_first xs), length-newest_first xs)

head-find : (xs : List Execution) → head? xs ≡ find? (λ _. true) xs
head-find [] = refl
head-find (x ∷ xs) = refl

module _ (p : Execution → Bool) where
  count-insert : (e : Execution) (xs : List Execution) → count p (insert e xs) ≡ count p (e ∷ xs)
  count-insert e [] = refl
  count-insert e (x ∷ xs) = ground (arith, count-insert e xs)

  count-newest_first : (xs : List Execution) → count p (newest_first xs) ≡ count p xs
  count-newest_first [] = refl
  count-newest_first (x ∷ xs) =
      ground (arith, count-insert x (newest_first xs), count-newest_first xs)

  count-keep : (q : Execution → Bool) (t : List Execution) → count p (keep q t) ≡ count (both q p) t
  count-keep q [] = refl
  count-keep q (e ∷ t) = ground (arith, count-keep q t)

  newest-keep :
      (q r : Execution → Bool)
      → ((e : Execution) → r e ≡ both q p e)
      → (t : List Execution) → newest p (keep q t) ≡ newest r t
  newest-keep q r agree [] = refl
  newest-keep q r agree (e ∷ t) = elim (Bool-cases (q e)) [
    | inl mine ↦ rw (agree e, mine, sym (newest-keep q r agree t)) refl
    | inr other ↦ rw (agree e, other) (newest-keep q r agree t)
  ]

-- Each execution is counted once.
waiting-running : (t : List Execution) → count is_waiting t + count is_running t ≡ count is_active t
waiting-running [] = refl
waiting-running (e ∷ t) = ground (arith, waiting-running t)

active-ended :
    (t : List Execution)
    → count is_active t + count is_succeeded t + count is_failed t + count is_cancelled t ≡ length t
active-ended [] = refl
active-ended (e ∷ t) = ground (arith, active-ended t)

-- The report of a job with at most 200 executions, with no fault, is on all of them: every
-- execution of the job is counted once, as waiting, running, succeeded, failed or cancelled; the
-- latest is the one that a replayed creation answers with, and the last one with an outcome is the
-- newest that has succeeded or failed. Nothing is changed.
pub status_report :
    (job_id : String) (s : Store) (j : Job)
    → find? (has_job_id job_id) s.jobs ≡ some j
    → count (of_job job_id) s.executions ≤ 200
    → (r : JobReport) × (status job_id (begin s []) ≡ (ok r, begin s []))
      × (r.job ≡ j)
      × (r.latest_execution ≡ newest (of_job job_id) s.executions)
      × (r.last_execution ≡ newest (both (of_job job_id) has_outcome) s.executions)
      × (r.pending + r.running ≡ r.total)
      × (r.total
            + count (both (of_job job_id) is_succeeded) s.executions
            + count (both (of_job job_id) is_failed) s.executions
            + count (both (of_job job_id) is_cancelled) s.executions
          ≡ count (of_job job_id) s.executions)
      × (r.health
          ≡ health
              (count (of_job job_id) s.executions)
              (count (both (of_job job_id) is_failed) s.executions)
              (count (both (of_job job_id) is_succeeded) s.executions))
unfolding status query Jobs.get list_for_job
status_report job_id s j there few =
    let mine = keep (of_job job_id) s.executions in
    let shown = newest_first mine in
    let all : take 200 shown ≡ shown =
      take-all 200 shown (omega (arith, length-newest_first mine, few)) in
    let counted : (p : Execution → Bool)
        → count p shown ≡ count (both (of_job job_id) p) s.executions =
      λ p. count-newest_first p mine ∙ count-keep p (of_job job_id) s.executions in
    (
      report j shown,
      rw (there, all) refl,
      refl,
      head-find shown
          ∙ find-newest_first (λ _. true) mine
          ∙ newest-keep (λ _. true) (of_job job_id) (of_job job_id) (λ e. ground arith)
              s.executions,
      find-newest_first has_outcome mine
          ∙ newest-keep has_outcome (of_job job_id) _ (λ e. refl) s.executions,
      waiting-running shown,
      omega (
        arith,
        active-ended shown,
        counted is_succeeded,
        counted is_failed,
        counted is_cancelled,
        length-newest_first mine,
      ),
      rw (length-newest_first mine, counted is_failed, counted is_succeeded) refl,
    )

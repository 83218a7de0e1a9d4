-- ===== src/Poller/Progress.antt =====
-- That a turn of crates/worker/src/poller.rs does the work that is there.
use invokr.Base.{◌≡◌, refl, true, some, [], find?}
use invokr.Store.{Execution, Job}
use invokr.Store.Conn.{begin, query}
use invokr.Executions as Executions
use invokr.Executions.{claim_row}
use invokr.Jobs as Jobs
use invokr.Pipeline.Load.{World}
use invokr.Pipeline.{process_execution}
use invokr.Poller.{Workspace, Caches, finished, opened, turn, task_of, with_claim}

-- The world after the claim.
abbrev pub claimed_world : Workspace → Caches → World
claimed_world s c = record (opened s c) {
  conn =
      begin
        (record s.store {
          executions = (claim_row s.env.now s.env.locked s.env.worker_id s.store.executions).1;
        })
        [];
}

-- With a transaction that opens and meets no fault, a turn that has an execution to claim, whose
-- job is there, runs the pipeline on it, on the store in which it is claimed.
turn_works :
    (s : Workspace) (c : Caches) (d : Execution) (j : Job)
    → s.begins ≡ true
    → s.faults ≡ []
    → (claim_row s.env.now s.env.locked s.env.worker_id s.store.executions).0 ≡ some d
    → find? (Jobs.has_job_id d.job_id) s.store.jobs ≡ some j
    → turn s c ≡ finished (process_execution s.env (task_of s.schema_name d j) (claimed_world s c))
unfolding turn Executions.claim Jobs.get query
turn_works s c d j begun calm got there = rw (begun, calm, got, there, with_claim) refl

-- ===== src/Poller/Round.antt =====
-- What a round of crates/worker/src/poller.rs commits.
use mathlib.Core.Path.{subst}
use invokr.Base.{
  ◌≡◌, refl, ap, sym, find?, ◌∙◌, ◌⊎◌, inl, inr, String, true, Option, none, some, List, [], ◌∷◌,
  Bool-cases,
}
use invokr.Base.Rows.{update_where}
use invokr.Base.Result.{Result, ok, err}
use invokr.Store.{Store, Execution, Job}
use invokr.Store.Conn.{Conn, DbError, begin}
use invokr.Store.Does.{query-Does, Does}
use invokr.Executions as Executions
use invokr.Executions.{has_id, runs, is_running, is_due, claimed, claim_row, on_executions}
use invokr.Executions.Claim.{ClaimOutcome, claim_row-ClaimOutcome, Picked}
use invokr.Jobs as Jobs
use invokr.Pipeline.Load.{Env, World, exec}
use invokr.Pipeline.Table.{TableIs, query-TableIs}
use invokr.Pipeline.Ending.{Ending, ended_row, IsAllowed, EndsIn, process_execution-EndsIn}
use invokr.Poller.{
  Workspace, Caches, Turn, unopened, dropped, done, panicked, finished, with_job, with_claim, turn,
  task_of,
}

-- The whole of an execution's attempt, as one change of its row.
abbrev pub attempted : Env → Ending → Execution → Execution
attempted env o e = ended_row env.now o (claimed env.now env.worker_id e)

fuse :
    (env : Env) (o : Ending) (id : String) (t : List Execution)
    → update_where
        (runs id)
        (ended_row env.now o)
        (update_where (has_id id) (claimed env.now env.worker_id) t)
      ≡ update_where (has_id id) (attempted env o) t
fuse env o id [] = refl
fuse env o id (e ∷ t) = elim (Bool-cases (has_id id e)) [
  | inl hit ↦ rw (hit, hit) (ap (◌∷◌ (attempted env o e)) (fuse env o id t))
  | inr miss ↦ rw (miss, miss) (ap (◌∷◌ e) (fuse env o id t))
]

-- A turn that leaves the store, or has made one attempt at an execution that was due: no other row
-- changes, and a retry leaves attempts.
abbrev pub Attempts : Workspace → List Execution → Type 0
Attempts s r =
    (e : Execution) × (o : Ending) × (j : Job) × Picked (is_due s.env.now s.env.locked) e
      s.store.executions
    × IsAllowed (task_of s.schema_name (claimed s.env.now s.env.worker_id e) j) o
    × (r ≡ update_where (has_id e.execution_id) (attempted s.env o) s.store.executions)

-- What a turn leaves in its transaction.
abbrev pub Leaves : Workspace → Turn → Type 0
Leaves s unopened = Unit {0}
Leaves s (dropped w) = Unit {0}
Leaves s panicked = Unit {0}
Leaves s (done w) = (w.conn.aborted ≡ true) ⊎ Attempts s w.conn.store.executions

process-Leaves :
    (s : Workspace) (e : Execution) (j : Job) (r : Option World)
    → Picked (is_due s.env.now s.env.locked) e s.store.executions
    → EndsIn s.env
        (task_of s.schema_name (claimed s.env.now s.env.worker_id e) j)
        (update_where
          (has_id e.execution_id)
          (claimed s.env.now s.env.worker_id)
          s.store.executions)
        r
    → Leaves s (finished r)
process-Leaves s e j none picked ends = tt
process-Leaves s e j (some v) picked (o, allowed, inl dead) = inl dead
process-Leaves s e j (some v) picked (o, allowed, inr table) =
    inr (e, o, j, picked, allowed, table ∙ fuse s.env o e.execution_id s.store.executions)

with_job-Leaves :
    (s : Workspace) (e : Execution) (r : Result DbError (Option Job) × World)
    → Picked (is_due s.env.now s.env.locked) e s.store.executions
    → TableIs
        (update_where
          (has_id e.execution_id)
          (claimed s.env.now s.env.worker_id)
          s.store.executions)
        r.1.conn
    → Leaves s (with_job s (claimed s.env.now s.env.worker_id e) r)
with_job-Leaves s e (ok (some j), w) picked is =
    process-Leaves s e j _ picked (process_execution-EndsIn s.env _ _ w is)
with_job-Leaves s e (ok none, w) picked is = tt
with_job-Leaves s e (err d, w) picked is = tt

-- A live claim.
abbrev Claims : Workspace → Result DbError (Option Execution) × Conn → Type 0
Claims s (ok (some d), c) =
    (e : Execution) × (d ≡ claimed s.env.now s.env.worker_id e)
    × Picked (is_due s.env.now s.env.locked) e s.store.executions
    × (c.store.executions
        ≡ update_where (has_id e.execution_id) (claimed s.env.now s.env.worker_id)
            s.store.executions)
Claims s _ = Unit {0}

Claims-row :
    (s : Workspace) (d : Execution) (c : Conn) (r : Option Execution × List Execution)
    → some d ≡ r.0
    → c.store.executions ≡ r.1
    → ClaimOutcome s.env.now s.env.locked s.env.worker_id s.store.executions r
    → Claims s (ok (some d), c)
Claims-row s d c r got same (inl (nothing, _, _)) =
    absurd (let q : some d ≡ none = got ∙ nothing in cc)
Claims-row s d c r got same (inr (e, picked, row, changed)) =
    let q : some d ≡ some (claimed s.env.now s.env.worker_id e) = got ∙ row in
    (e, cc, picked, same ∙ changed)

abbrev Rows : Workspace → Option Execution → Store → Type 0
Rows s o x =
    (o ≡ (claim_row s.env.now s.env.locked s.env.worker_id s.store.executions).0)
    × (x.executions ≡ (claim_row s.env.now s.env.locked s.env.worker_id s.store.executions).1)

Claims-Does :
    (s : Workspace) (r : Result DbError (Option Execution) × Conn) → Does (Rows s) r → Claims s r
Claims-Does s (ok none, c) does = tt
Claims-Does s (err e, c) does = tt
Claims-Does s (ok (some d), c) (inl (dead, (e, wrong))) = absurd cc
Claims-Does s (ok (some d), c) (inr (alive, (a, same, (got, table)))) =
    let q : some d ≡ a = cc in
    Claims-row s d c _ (q ∙ got) table
      (claim_row-ClaimOutcome s.env.now s.env.locked s.env.worker_id s.store.executions)

claim-Claims :
    (s : Workspace)
    → Claims s (Executions.claim s.env.now s.env.locked s.env.worker_id (begin s.store s.faults))
unfolding Executions.claim
claim-Claims s = Claims-Does s _ (
    query-Does (Rows s) (on_executions (claim_row s.env.now s.env.locked s.env.worker_id))
      (begin s.store s.faults) refl (λ o x e. (cc, cc)))

job_get-TableIs :
    (u : List Execution) (id : String) (c : Conn) → TableIs u c → TableIs u (Jobs.get id c).1
unfolding Jobs.get
job_get-TableIs u id c =
    query-TableIs (λ t. t) (λ s. ok (find? (Jobs.has_job_id id) s.jobs, s)) u c (λ s r a e. cc)

with_claim-Leaves :
    (s : Workspace) (r : Result DbError (Option Execution)) (w : World)
    → Claims s (r, w.conn)
    → Leaves s (with_claim s (r, w))
with_claim-Leaves s (ok none) w claims = tt
with_claim-Leaves s (err e) w claims = tt
with_claim-Leaves s (ok (some d)) w (e, row, picked, table) =
    subst (λ x. Leaves s (with_claim s (ok (some x), w))) (sym row)
      (with_job-Leaves s e (exec (Jobs.get e.job_id) w) picked (kept w (inr table)))
  where
    kept :
        (w : World)
        → TableIs
            (update_where
              (has_id e.execution_id)
              (claimed s.env.now s.env.worker_id)
              s.store.executions)
            w.conn
        → TableIs
            (update_where
              (has_id e.execution_id)
              (claimed s.env.now s.env.worker_id)
              s.store.executions)
            (exec (Jobs.get e.job_id) w).1.conn
    kept w is = job_get-TableIs _ e.job_id w.conn is

pub turn-Leaves : (s : Workspace) (c : Caches) → Leaves s (turn s c)
unfolding turn
turn-Leaves s c = elim (Bool-cases s.begins) [
  | inr shut ↦ rw shut tt
  | inl begun ↦ rw begun (with_claim-Leaves s _ _ (claim-Claims s))
]

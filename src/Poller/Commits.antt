-- ===== src/Poller/Commits.antt =====
-- What is committed after a round of crates/worker/src/poller.rs.
use mathlib.Core.Path.{subst}
use invokr.Base.{
  ◌≡◌, refl, ap, sym, ◌∙◌, ◌⊎◌, inl, inr, true, false, List, [], ◌∷◌, arith, Bool-cases, All,
  if◌then◌else◌,
}
use invokr.Base.Rows.{All-update, All-update_key, All-Memᴰ, Unique-update, Apart-update}
use invokr.Store.{Store, Execution}
use invokr.Store.Conn.{commit}
use invokr.Executions.{has_id, is_running, is_claimable, takes_key}
use invokr.Executions.Valid.{IsValid, claimed-IsValid, succeed-IsValid, fail-IsValid, retry-IsValid}
use invokr.Executions.Machine.{IsValidTable}
use invokr.Pipeline.Load.{Env, World}
use invokr.Pipeline.Ending.{Ending, succeeded, retried, gave_up}
use invokr.Poller.{
  Workspace, Caches, Turn, unopened, dropped, done, panicked, committed, Outcome, taken,
  claim_and_process, turn,
}
use invokr.Poller.Round.{Attempts, attempted, Leaves, turn-Leaves}

-- Every workspace is as it was, but for one at most, in which one attempt has been made.
abbrev pub OneAttempt : List Workspace → List Workspace → Type 0
OneAttempt [] [] = Unit {0}
OneAttempt [] (r ∷ rs) = ⊥
OneAttempt (s ∷ ss) [] = ⊥
OneAttempt (s ∷ ss) (r ∷ rs) =
    ((r ≡ s) × OneAttempt ss rs) ⊎ (Attempts s r.store.executions × (rs ≡ ss))

OneAttempt-refl : (ss : List Workspace) → OneAttempt ss ss
OneAttempt-refl [] = tt
OneAttempt-refl (s ∷ ss) = inl (refl, OneAttempt-refl ss)

-- The two ways in which nothing is committed, and the one in which all is.
refused : (s : Workspace) (w : World) → s.commits ≡ false → committed s w ≡ s
refused s w no_commit =
    ap (λ b. record s { store = if b then commit s.store w.conn else s.store }) no_commit

answered :
    (s : Workspace) (w : World) → s.commits ≡ true → (committed s w).store ≡ commit s.store w.conn
answered s w yes_commit = ap (λ b. if b then commit s.store w.conn else s.store) yes_commit

committed-cases :
    (s : Workspace) (w : World)
    → Leaves s (done w)
    → (committed s w ≡ s) ⊎ Attempts s (committed s w).store.executions
committed-cases s w leaves = elim (Bool-cases s.commits) [
  | inr no_commit ↦ inl (refused s w no_commit)
  | inl yes_commit ↦ elim (Bool-cases w.conn.aborted) [
    | inl dead ↦ inl (
        ap (λ (x : Store). record s { store = x })
          (answered s w yes_commit ∙ ap (λ b. if b then s.store else w.conn.store) dead))
    | inr alive ↦ elim leaves [
      | inl dead ↦ absurd (let q : true ≡ false = sym dead ∙ alive in cc)
      | inr attempts ↦ inr (
          subst (λ (x : Store). Attempts s x.executions)
            (sym (answered s w yes_commit ∙ ap (λ b. if b then s.store else w.conn.store) alive))
            attempts)
    ]
  ]
]

-- What a round does: no answer of success without work.
abbrev pub RoundOutcome : List Workspace → Outcome → Type 0
RoundOutcome ss r = OneAttempt ss r.workspaces × (r.found ≡ false → r.workspaces ≡ ss)

taken-RoundOutcome :
    (s : Workspace) (ss : List Workspace) (c : Caches) (rest : Outcome) (t : Turn)
    → Leaves s t
    → RoundOutcome ss rest
    → RoundOutcome (s ∷ ss) (taken s ss c rest t)
taken-RoundOutcome s ss c rest unopened leaves (one, idle) =
    (inl (refl, one), λ h. ap (◌∷◌ s) (idle h))
taken-RoundOutcome s ss c rest (dropped w) leaves (one, idle) =
    (inl (refl, one), λ h. ap (◌∷◌ s) (idle h))
taken-RoundOutcome s ss c rest panicked leaves _ = (inl (refl, OneAttempt-refl ss), λ h. cc)
taken-RoundOutcome s ss c rest (done w) leaves _ = (
  elim (committed-cases s w leaves) [
    | inl same ↦ inl (same, OneAttempt-refl ss)
    | inr attempts ↦ inr (attempts, refl)
  ],
  λ h. cc,
)

-- A round of the worker, whatever fails in it, leaves every workspace as it was except for one at
-- most; in that one it has made one whole attempt at one execution, the earliest that was due and
-- not locked: its row goes in one step from waiting to SUCCESS, FAILED, or waiting for a retry (if
-- an attempt is left), and no other row changes. If no work was found, nothing has changed.
pub claim_and_process-RoundOutcome :
    (ss : List Workspace) (c : Caches) → RoundOutcome ss (claim_and_process ss c)
unfolding claim_and_process
claim_and_process-RoundOutcome [] c = (tt, λ h. refl)
claim_and_process-RoundOutcome (s ∷ ss) c =
    taken-RoundOutcome s ss c (claim_and_process ss c) (turn s c) (turn-Leaves s c)
      (claim_and_process-RoundOutcome ss c)

attempted-still :
    (env : Env) (o : Ending) (e : Execution) → is_running (attempted env o e).status ≡ false
attempted-still env (succeeded output) e = refl
attempted-still env gave_up e = refl
attempted-still env (retried ms) e = ground arith

-- No row is RUNNING.
abbrev pub IsStill : List Execution → Type 0
IsStill t = All (λ e. is_running e.status ≡ false) t

Attempts-IsStill :
    (s : Workspace) (r : List Execution) → Attempts s r → IsStill s.store.executions → IsStill r
Attempts-IsStill s r (e, o, j, _, _, same) still = subst IsStill (sym same) (
    All-update (λ x. is_running x.status ≡ false) (has_id e.execution_id) (attempted s.env o)
      s.store.executions (λ x _ _. attempted-still s.env o x) still)

abbrev pub executions_of : Workspace → List Execution
executions_of s = s.store.executions

OneAttempt-All :
    (P : List Execution → Type 0) (ss rs : List Workspace)
    → ((s : Workspace) (r : List Execution) → Attempts s r → P (executions_of s) → P r)
    → OneAttempt ss rs
    → All (λ s. P (executions_of s)) ss
    → All (λ s. P (executions_of s)) rs
OneAttempt-All P [] [] step one all = tt
OneAttempt-All P [] (r ∷ rs) step one all = absurd one
OneAttempt-All P (s ∷ ss) [] step one all = absurd one
OneAttempt-All P (s ∷ ss) (r ∷ rs) step (inl (same, one)) all =
    (subst (λ x. P (executions_of x)) (sym same) all.0, OneAttempt-All P ss rs step one all.1)
OneAttempt-All P (s ∷ ss) (r ∷ rs) step (inr (attempts, same)) all = (
  step s (executions_of r) attempts all.0,
  subst (All (λ s. P (executions_of s))) (sym same) all.1,
)

-- The claim and the end of an execution are committed together: if no committed row of any
-- workspace is RUNNING before a round, none is after it, whatever fails in the round.
pub claim_and_process-IsStill :
    (ss : List Workspace) (c : Caches)
    → All (λ s. IsStill (executions_of s)) ss
    → All (λ s. IsStill (executions_of s)) (claim_and_process ss c).workspaces
claim_and_process-IsStill ss c =
    OneAttempt-All IsStill ss _ Attempts-IsStill (claim_and_process-RoundOutcome ss c).0

attempted-IsValid :
    (env : Env) (o : Ending) (e : Execution)
    → is_claimable e.status ≡ true
    → IsValid e
    → IsValid (attempted env o e)
attempted-IsValid env (succeeded output) e h v =
    succeed-IsValid env.now output _ refl (claimed-IsValid env.now env.worker_id e h v)
attempted-IsValid env gave_up e h v =
    fail-IsValid env.now _ refl (claimed-IsValid env.now env.worker_id e h v)
attempted-IsValid env (retried ms) e h v =
    retry-IsValid env.now ms _ refl (claimed-IsValid env.now env.worker_id e h v)

Attempts-IsValidTable :
    (s : Workspace) (r : List Execution)
    → Attempts s r
    → IsValidTable s.store.executions
    → IsValidTable r
Attempts-IsValidTable s r (e, o, j, (m, due, _), _, same) v =
    subst IsValidTable (sym same) (record {
      rows =
          All-update_key (λ x. x.execution_id) IsValid (attempted s.env o) m v.unique
            (attempted-IsValid s.env o e (ground arith) (All-Memᴰ IsValid m v.rows)) v.rows;
      unique =
          Unique-update (λ x. x.execution_id) (has_id e.execution_id) (attempted s.env o)
            s.store.executions (kept_id o) v.unique;
      keyed =
          Apart-update takes_key (has_id e.execution_id) (attempted s.env o) s.store.executions
            (kept_left o) (kept_right o) v.keyed;
    })
  where
    kept_id : (o : Ending) (x : Execution) → (attempted s.env o x).execution_id ≡ x.execution_id
    kept_id (succeeded output) x = refl
    kept_id gave_up x = refl
    kept_id (retried ms) x = refl

    kept_left : (o : Ending) (x y : Execution) → takes_key (attempted s.env o x) y ≡ takes_key x y
    kept_left (succeeded output) x y = refl
    kept_left gave_up x y = refl
    kept_left (retried ms) x y = refl

    kept_right : (o : Ending) (x y : Execution) → takes_key x (attempted s.env o y) ≡ takes_key x y
    kept_right (succeeded output) x y = refl
    kept_right gave_up x y = refl
    kept_right (retried ms) x y = refl

-- A round keeps the tables of all workspaces valid, whatever fails in it: no execution has more
-- attempts than it may, a waiting retry has one left, and the other parts of `IsValidTable`.
pub claim_and_process-IsValidTable :
    (ss : List Workspace) (c : Caches)
    → All (λ s. IsValidTable (executions_of s)) ss
    → All (λ s. IsValidTable (executions_of s)) (claim_and_process ss c).workspaces
claim_and_process-IsValidTable ss c =
    OneAttempt-All IsValidTable ss _ Attempts-IsValidTable (claim_and_process-RoundOutcome ss c).0

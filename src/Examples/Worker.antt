-- ===== src/Examples/Worker.antt =====
-- The worker's round, tried on the small workspace.
use invokr.Base.{◌≡◌, refl, inr, true, [], ◌∷◌, arith, All}
use invokr.Executions.Valid.{IsValid}
use invokr.Executions.Machine.{IsValidTable}
use invokr.Pipeline.{process_execution}
use invokr.Pipeline.Ending.{EndsIn, process_execution-EndsIn}
use invokr.Poller.{claim_and_process}
use invokr.Poller.Commits.{
  RoundOutcome, claim_and_process-RoundOutcome, claim_and_process-IsStill, IsStill, executions_of,
  claim_and_process-IsValidTable,
}
use invokr.Executions as Executions
use invokr.Executions.{claim_row}
use invokr.Jobs as Jobs
use invokr.Endpoints as Endpoints
use invokr.Pipeline.Load.{load_secrets, scan, reference}
use invokr.Json.{to_string}
use invokr.Base.Text.{strip_prefix, trim, split_once, count_chars}
use invokr.Base.Map.{lookup}
use invokr.Template.{
  resolve, resolve_string, is_single_template, interpolate, spot, resolve_variable,
}
use invokr.Poller.{turn}
use invokr.Executions.{claimed}
use invokr.Examples.{row, running_row, env, task, world, workspace, caches}

process_execution-EndsIn_example :
    EndsIn env task (running_row ∷ []) (process_execution env task world)
process_execution-EndsIn_example =
    process_execution-EndsIn env task (running_row ∷ []) world (inr refl)

claim_and_process-RoundOutcome_example :
    RoundOutcome (workspace ∷ []) (claim_and_process (workspace ∷ []) caches)
claim_and_process-RoundOutcome_example = claim_and_process-RoundOutcome (workspace ∷ []) caches

claim_and_process-IsStill_example :
    All (λ s. IsStill (executions_of s)) (claim_and_process (workspace ∷ []) caches).workspaces
claim_and_process-IsStill_example =
    claim_and_process-IsStill (workspace ∷ []) caches ((refl, tt), tt)

row-IsValid : IsValid row
row-IsValid = record {
  bounded = omega arith;
  fresh = λ h. refl;
  retriable = λ h. cc;
  owned = λ h. cc;
  counted = λ h. cc;
  unowned = λ h. cc;
  ended = λ h. cc;
  unended = λ h. refl;
}

claim_and_process-IsValidTable_example :
    All (λ s. IsValidTable (executions_of s)) (claim_and_process (workspace ∷ []) caches).workspaces
claim_and_process-IsValidTable_example =
    claim_and_process-IsValidTable (workspace ∷ []) caches
      (record { rows = (row-IsValid, tt); unique = (tt, tt); keyed = (tt, tt) }, tt)

-- The whole round computes: the execution is found, and no RUNNING row is left.
found_test : (claim_and_process (workspace ∷ []) caches).found ≡ true
unfolding claim_and_process turn Executions.claim claim_row Jobs.get process_execution Endpoints.get
    load_secrets scan to_string reference strip_prefix resolve resolve_string is_single_template
    trim interpolate spot split_once count_chars resolve_variable lookup
found_test = refl

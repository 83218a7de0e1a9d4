-- ===== src/Examples/Table.antt =====
-- The statements on the tables, tried on the small workspace.
use mathlib.Core.List.{Memᴰ}
use invokr.Base.{◌≡◌, refl, ◌≢◌, String, Bool, false, some, List, [], ◌∷◌, arith, str_eq}
use invokr.Base.Int.{pos}
use invokr.Store.{Execution, success}
use invokr.Store.Does.{Does}
use invokr.Executions.{claim_row, claimed, is_cancellable}
use invokr.Executions.Claim.{ClaimOutcome, claim_row-ClaimOutcome, claim_row_exclusive}
use invokr.Executions.Machine.{
  Statement, insert, claim, complete_retry, complete_failed, cancel, IsValidTable, run, run_valid,
}
use invokr.Executions.Final.{run-ended}
use invokr.Reaper.{reap_schema}
use invokr.Reaper.Sweep.{Sweeps, reap_schema-Does}
use invokr.Examples.{nobody, row, store, live}

claim_row-ClaimOutcome_example :
    ClaimOutcome 10 nobody "w" (row ∷ []) (claim_row 10 nobody "w" (row ∷ []))
claim_row-ClaimOutcome_example = claim_row-ClaimOutcome 10 nobody "w" (row ∷ [])

abbrev all_but : String → String → Bool
all_but id x = str_eq x id

abbrev other_row : Execution
other_row = record row { execution_id = "e2" }

claim_row_exclusive_example : (claimed 10 "w" other_row).execution_id ≢ "e1"
unfolding claim_row
claim_row_exclusive_example =
    claim_row_exclusive 10 (all_but "e1") "w" "e1" (row ∷ other_row ∷ []) (claimed 10 "w" other_row)
      refl refl

abbrev history : List Statement
history =
    insert row
    ∷ claim 10 nobody "w"
    ∷ complete_retry 11 "e1" (pos 1000)
    ∷ claim 2000000 nobody "w"
    ∷ complete_failed 2000001 "e1"
    ∷ []

run_valid_example : IsValidTable (run history [])
run_valid_example = run_valid history ((refl, refl, refl), (tt, (tt, (tt, (tt, tt)))))

history_test : is_cancellable (claimed 10 "w" row).status ≡ false
history_test = refl

abbrev ended_row : Execution
ended_row = record row { status = success; attempt_count = 1; completed_at = some 12 }

run-ended_example :
    Memᴰ ended_row (run (claim 10 nobody "w" ∷ cancel 11 "e1" ∷ []) (ended_row ∷ []))
run-ended_example =
    run-ended (claim 10 nobody "w" ∷ cancel 11 "e1" ∷ []) (tt, (tt, tt))
      (record {
        rows = (
          record {
            bounded = omega arith;
            fresh = λ h. cc;
            retriable = λ h. cc;
            owned = λ h. cc;
            counted = λ h. cc;
            unowned = λ h. cc;
            ended = λ h. refl;
            unended = λ h. cc;
          },
          tt,
        );
        unique = (tt, tt);
        keyed = (tt, tt);
      })
      (Memᴰ.head refl) refl

reap_schema-Does_example : Does (Sweeps 30 "ws" store) (reap_schema 30 "ws" live)
reap_schema-Does_example = reap_schema-Does 30 "ws" live refl

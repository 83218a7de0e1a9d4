-- ===== src/Examples/Embedded.antt =====
-- The calls of an embedding program, tried at concrete values.
use invokr.Base.{◌≡◌, refl, none, some, [], ◌∷◌}
use invokr.Base.Int.{pos}
use invokr.Base.Rows.{update_where}
use invokr.Base.Result.{ok, err}
use invokr.Json.{str}
use invokr.Store.{Store}
use invokr.Store.Conn.{fault}
use invokr.Jobs.{is_live, retire}
use invokr.Jobs.Cron.{cron_job_name, no_entry}
use invokr.Library.{Env, ClientError, db_error, JobTrigger, create_job, cancel_job}
use invokr.Library.Jobs.{create_job_torn, create_job_unscheduled, with_job, keyed_row, cron_row}
use invokr.Examples.{store, hook}

abbrev call : Env
call = record { now = 40; job_id = "j8"; execution_id = "e8"; schema_name = "ws" }

abbrev again : Env
again = record { now = 50; job_id = "j9"; execution_id = "e9"; schema_name = "ws" }

abbrev half : Store
half = with_job (keyed_row call hook (str "a") JobTrigger.immediate (some "k8")) store

create_job_torn_example :
    (create_job call "hook"
        (str "a")
        (pos 3)
        JobTrigger.immediate
        (some "k8")
        (none ∷ none ∷ some "timeout" ∷ [])
        store
      ≡ (err (db_error (fault "timeout")), half))
    × ((e : ClientError) × (create_job again "hook"
            (str "b")
            (pos 3)
            (JobTrigger.delayed 60)
            (some "k8")
            []
            half
          ≡ (err e, half)))
create_job_torn_example =
    create_job_torn call again hook (str "a") (str "b") (pos 3) (pos 3) JobTrigger.immediate
      (JobTrigger.delayed 60) (some "k8") "timeout" [] store refl refl refl refl refl

create_job_unscheduled_example :
    (create_job call "hook"
        (str "a")
        (pos 3)
        (JobTrigger.cron "0 1 * * *" "UTC" none none 90)
        none
        []
        store
      ≡ (
        ok "j8",
        with_job (cron_row call hook (str "a") "0 1 * * *" "UTC" none none 90 none) store,
      ))
    × (cancel_job 70 "ws" "j8" []
          (with_job (cron_row call hook (str "a") "0 1 * * *" "UTC" none none 90 none) store)
        ≡ (
          err (db_error (fault (no_entry (cron_job_name "ws" "j8")))),
          record store {
            jobs =
                retire 70 (cron_row call hook (str "a") "0 1 * * *" "UTC" none none 90 none)
                ∷ update_where (is_live "j8") (retire 70) store.jobs;
          },
        ))
create_job_unscheduled_example =
    create_job_unscheduled call hook (str "a") (pos 3) "0 1 * * *" "UTC" none none 90 70 none store
      refl refl refl refl

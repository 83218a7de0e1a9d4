-- ===== src/Reaper.antt =====
-- crates/worker/src/reaper.rs: the sweep over expired CRON jobs.
pub mod Sweep
use invokr.Base.{ℕ, String, List, [], ◌∷◌}
use invokr.Store.Conn.{M, pure, ◌>>=◌, ◌>>◌}
use invokr.Jobs.{retire_expired_cron_jobs}
use invokr.Jobs.Cron.{unregister_pg_cron_conn}

-- The first loop of `reap_schema`.
unfoldable pub unregister_all : String → List String → M (Unit {0})
unregister_all schema_name [] = pure tt
unregister_all schema_name (job_id ∷ ids) = do
  unregister_pg_cron_conn schema_name job_id
  unregister_all schema_name ids

unfoldable pub reap_schema : ℕ → String → M (List String)
reap_schema now schema_name = do
  retired ← retire_expired_cron_jobs now
  unregister_all schema_name retired
  pure retired

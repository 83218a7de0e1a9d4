-- ===== src/Reaper/Sweep.antt =====
-- What the sweep of crates/worker/src/reaper.rs leaves.
use invokr.Base.{
  ℕ, ◌≡◌, refl, ap, sym, ◌∙◌, inl, inr, String, Bool, true, false, not, ◌||◌, List, [], ◌∷◌, arith,
  map, keep, All, Bool-cases, if◌then◌else◌,
}
use invokr.Base.Rows.{update_where}
use mathlib.Core.Path.{subst}
use invokr.Store.Does.{Does, bind-Does, query-Does}
use invokr.Store.{Store, Job, CronEntry}
use invokr.Store.Conn.{Conn, ◌>>◌, pure}
use invokr.Jobs.{retire_expired_cron_jobs, is_expired, retire}
use invokr.Jobs.Cron.{unregister_pg_cron_conn, cron_job_name, has_name, others}
use invokr.Reaper.{unregister_all, reap_schema}

abbrev pub expired_ids : ℕ → List Job → List String
expired_ids now t = map (λ j. j.job_id) (keep (is_expired now) t)

-- Is the entry that of one of the jobs?
abbrev pub is_entry_of : String → List String → CronEntry → Bool
is_entry_of schema_name [] e = false
is_entry_of schema_name (id ∷ ids) e =
    has_name (cron_job_name schema_name id) e || is_entry_of schema_name ids e

-- The sweep as one step: expired jobs are retired, and their entries are gone.
abbrev pub swept : ℕ → String → Store → Store
swept now schema_name s = record s {
  jobs = update_where (is_expired now) (retire now) s.jobs;
  cron_jobs = keep (λ e. not (is_entry_of schema_name (expired_ids now s.jobs) e)) s.cron_jobs;
}

keep-others :
    (schema_name id : String) (ids : List String) (t : List CronEntry)
    → keep (λ e. not (is_entry_of schema_name ids e)) (others (cron_job_name schema_name id) t)
      ≡ keep (λ e. not (is_entry_of schema_name (id ∷ ids) e)) t
keep-others schema_name id ids [] = refl
keep-others schema_name id ids (e ∷ t) =
    elim (Bool-cases (has_name (cron_job_name schema_name id) e)) [
      | inl hit ↦ rw hit (keep-others schema_name id ids t)
      | inr miss ↦ elim (Bool-cases (is_entry_of schema_name ids e)) [
        | inl of ↦ rw (miss, of) (keep-others schema_name id ids t)
        | inr not_of ↦ rw (miss, not_of) (ap (◌∷◌ e) (keep-others schema_name id ids t))
      ]
    ]

keep-none : (t : List CronEntry) → keep (λ e. true) t ≡ t
keep-none [] = refl
keep-none (e ∷ t) = ap (◌∷◌ e) (keep-none t)

abbrev without : String → List String → Store → Store
without schema_name ids s = record s {
  cron_jobs = keep (λ e. not (is_entry_of schema_name ids e)) s.cron_jobs;
}

abbrev less : String → String → Store → Store
less schema_name id s = record s { cron_jobs = others (cron_job_name schema_name id) s.cron_jobs }

unregister-Does :
    (schema_name id : String) (c : Conn)
    → c.aborted ≡ false
    → Does (λ _ s. s ≡ less schema_name id c.store) (unregister_pg_cron_conn schema_name id c)
unfolding unregister_pg_cron_conn
unregister-Does schema_name id c h =
    query-Does (λ _ s. s ≡ less schema_name id c.store) _ c h (λ a s e. cc)

unregister_all-Does :
    (schema_name : String) (ids : List String) (c : Conn)
    → c.aborted ≡ false
    → Does (λ _ s. s ≡ without schema_name ids c.store) (unregister_all schema_name ids c)
unfolding unregister_all
unregister_all-Does schema_name [] c h =
    inr (
      h,
      (tt, refl, ap (λ t. record c.store { cron_jobs = t }) (sym (keep-none c.store.cron_jobs))),
    )
unregister_all-Does schema_name (id ∷ ids) c h =
    bind-Does (λ _ s. s ≡ less schema_name id c.store)
      (λ _ s. s ≡ without schema_name (id ∷ ids) c.store) (λ _. unregister_all schema_name ids)
      (unregister_pg_cron_conn schema_name id c) (unregister-Does schema_name id c h)
      (λ _ d alive same.
        subst (λ s. Does (λ _ r. r ≡ s) (unregister_all schema_name ids d))
          (ap (without schema_name ids) same
            ∙ ap (λ t. record c.store { cron_jobs = t })
                (keep-others schema_name id ids c.store.cron_jobs))
          (unregister_all-Does schema_name ids d alive))

abbrev retired_in : ℕ → Store → Store
retired_in now s = record s { jobs = update_where (is_expired now) (retire now) s.jobs }

abbrev Retires : ℕ → Store → List String → Store → Type 0
Retires now s ids r = (ids ≡ expired_ids now s.jobs) × (r ≡ retired_in now s)

retire-Does :
    (now : ℕ) (c : Conn)
    → c.aborted ≡ false
    → Does (Retires now c.store) (retire_expired_cron_jobs now c)
unfolding retire_expired_cron_jobs
retire-Does now c h = query-Does (Retires now c.store) _ c h (λ ids s e. (cc, cc))

-- A retired job is not expired any more.
unexpired :
    (now : ℕ) (t : List Job)
    → All (λ j. is_expired now j ≡ false) (update_where (is_expired now) (retire now) t)
unexpired now [] = tt
unexpired now (j ∷ t) = (this, unexpired now t)
  where
    this : is_expired now (if is_expired now j then retire now j else j) ≡ false
    this = elim (Bool-cases (is_expired now j)) [
      | inl hit ↦ rw hit (ground arith)
      | inr miss ↦ rw miss miss
    ]

abbrev pub Sweeps : ℕ → String → Store → List String → Store → Type 0
Sweeps now schema_name s ids r =
    (ids ≡ expired_ids now s.jobs)
    × (r ≡ swept now schema_name s)
    × All (λ j. is_expired now j ≡ false) r.jobs

Sweeps-intro :
    (now : ℕ) (schema_name : String) (s r : Store) (ids : List String)
    → ids ≡ expired_ids now s.jobs
    → r ≡ swept now schema_name s
    → Sweeps now schema_name s ids r
Sweeps-intro now schema_name s r ids same e = (
  same,
  e,
  subst (λ (x : Store). All (λ j. is_expired now j ≡ false) x.jobs) (sym e) (unexpired now s.jobs),
)

-- The sweep on a live transaction either retires all CRON jobs whose end has passed and removes
-- the cron entries of exactly those, returning their ids, so that no expired job is left ACTIVE;
-- or a statement of it fails, and then the transaction is aborted and commits nothing.
pub reap_schema-Does :
    (now : ℕ) (schema_name : String) (c : Conn)
    → c.aborted ≡ false
    → Does (Sweeps now schema_name c.store) (reap_schema now schema_name c)
unfolding reap_schema
reap_schema-Does now schema_name c h =
    bind-Does (Retires now c.store) (Sweeps now schema_name c.store)
      (λ ids. unregister_all schema_name ids >> pure ids) (retire_expired_cron_jobs now c)
      (retire-Does now c h)
      (λ ids d alive retires.
        bind-Does (λ _ s. s ≡ without schema_name ids d.store) (Sweeps now schema_name c.store)
          (λ _. pure ids) (unregister_all schema_name ids d)
          (unregister_all-Does schema_name ids d alive)
          (λ _ f live same. inr (
            live,
            (
              ids,
              refl,
              Sweeps-intro now schema_name c.store f.store ids retires.0 (
                  same
                  ∙ ap (without schema_name ids) retires.1
                  ∙ ap (λ i. without schema_name i (retired_in now c.store)) retires.0),
            ),
          )))

-- ===== src/Library/Jobs.antt =====
-- What becomes of the jobs that an embedding program creates (crates/worker/src/client.rs).
use mathlib.Core.Path.{subst}
use invokr.Base.{
  ℕ, ◌≡◌, refl, ap, ◌∙◌, inl, inr, String, Bool, true, false, Option, none, some, Option-cases,
  Bool-cases, List, [], ◌∷◌, get_or, eq_refl, find?, is_some,
}
use invokr.Base.Int.{ℤ}
use invokr.Base.Rows.{update_where}
use invokr.Base.Result.{Result, ok, err}
use invokr.Json.{Json}
use invokr.Store.{Store, Job, Endpoint, Execution, TriggerType}
use invokr.Store.Conn.{Conn, DbError, fault, begin, query, M, next_fault, rest_faults, continue}
use invokr.Endpoints.{named}
use invokr.Endpoints as Endpoints
use invokr.Jobs.{
  new_job, has_job_id, takes_key, matches_key, insert_job, insert_execution, create_immediate,
  create_delayed, create_cron, create_with, returning, is_cron, is_live, retire,
}
use invokr.Jobs as DbJobs
use invokr.Jobs.Cron.{cron_job_name, has_name, no_entry, unregister_pg_cron}
use invokr.Library.{
  JobTrigger, ClientError, db_error, Call, Env, follow, answered, statement, or_reject, insert,
  create_body, create_job, cancel_job,
}

-- IMMEDIATE and DELAYED, which always have a key.
abbrev pub is_keyed : JobTrigger → Bool
is_keyed JobTrigger.immediate = true
is_keyed (JobTrigger.delayed run_at) = true
is_keyed (JobTrigger.cron _ _ _ _ _) = false

-- An error, with the store as it was.
abbrev Fails : {E A : Type 0} → Store → Result E A × Conn → Type 0
Fails {E} s r = ((e : E) × (r.0 ≡ err e)) × (r.1.store ≡ s)

answered-Fails :
    {A : Type 0} (s : Store) (r : Result DbError A × Conn) → Fails s r → Fails s (answered r)
answered-Fails s (ok a, c) ((e, wrong), same) = absurd cc
answered-Fails s (err e, c) (failed, same) = ((db_error e, refl), same)

follow-Fails :
    {A B : Type 0} (s : Store) (next : A → Call B) (r : Result ClientError A × Conn)
    → Fails s r
    → Fails s (follow next r)
follow-Fails s next (ok a, c) ((e, wrong), same) = absurd cc
follow-Fails s next (err e, c) (failed, same) = ((e, refl), same)

or_reject-Fails :
    {A B : Type 0} (s : Store) (next : A → Call B) (o : Option A) (e : ClientError) (c : Conn)
    → c.store ≡ s
    → ((a : A) → Fails s (next a c))
    → Fails s (follow next (or_reject o e c))
or_reject-Fails s next none e c same f = ((e, refl), same)
or_reject-Fails s next (some a) e c same f = f a

-- A read, and what fails whatever it has read.
read-Fails :
    {A B : Type 0} (s : Store) (next : A → Call B) (a : Store → A) (c : Conn)
    → c.store ≡ s
    → ((d : Conn) → d.store ≡ s → Fails s (next (a s) d))
    → Fails s (follow next (statement (query (λ r. ok (a r, r))) c))
unfolding query
read-Fails s next a c same f = elim (Bool-cases c.aborted) [
  | inl dead ↦ rw dead ((_, refl), same)
  | inr live ↦ elim (Option-cases (next_fault c.faults)) [
    | inr (text, faulty) ↦ rw (live, faulty) ((_, refl), same)
    | inl calm ↦
        rw (live, calm, same)
          (f (record { store = s; aborted = false; faults = rest_faults c.faults }) refl)
  ]
]

-- A statement that the store refuses.
query-Fails :
    {A : Type 0} (q : Store → Result DbError (A × Store)) (e : DbError) (c : Conn)
    → q c.store ≡ err e
    → Fails c.store (query q c)
unfolding query
query-Fails q e c refused = elim (Bool-cases c.aborted) [
  | inl dead ↦ rw dead ((_, refl), refl)
  | inr live ↦ elim (Option-cases (next_fault c.faults)) [
    | inr (text, faulty) ↦ rw (live, faulty) ((_, refl), refl)
    | inl calm ↦ rw (live, calm, refused) ((e, refl), refl)
  ]
]

insert_job-taken :
    (j k : Job) (s : Store)
    → find? (takes_key j) s.jobs ≡ some k
    → (e : DbError) × (insert_job j s ≡ err e)
unfolding insert_job
insert_job-taken j k s taken = elim (Bool-cases (is_some (find? (has_job_id j.job_id) s.jobs))) [
  | inl there ↦ rw there (_, refl)
  | inr free ↦ rw (free, taken) (_, refl)
]

continue-Fails :
    {A B : Type 0} (s : Store) (next : A → M B) (r : Result DbError A × Conn)
    → Fails s r
    → Fails s (continue next r)
continue-Fails s next (ok a, c) ((e, wrong), same) = absurd cc
continue-Fails s next (err e, c) (failed, same) = ((e, refl), same)

-- The first insert of `create_with` is refused.
create_with-Fails :
    (j k : Job) (e : Execution) (c : Conn)
    → find? (takes_key j) c.store.jobs ≡ some k
    → Fails c.store (create_with j e c)
create_with-Fails j k e c taken =
    let refused = insert_job-taken j k c.store taken in
    continue-Fails c.store _ _
      (query-Fails (λ s. returning tt (insert_job j s)) refused.0 c (rw (refused.1) refl))

-- With a job of the key on the endpoint, a call fails and changes nothing.
insert-Fails :
    (env : Env) (endpoint : String) (input : Json) (n : ℤ) (trigger : JobTrigger)
    (key : Option String) (ep : Endpoint) (k : Job) (c : Conn)
    → is_keyed trigger ≡ true
    → find? (matches_key endpoint (get_or key "")) c.store.jobs ≡ some k
    → Fails c.store (insert env endpoint input n trigger key ep c)
unfolding create_immediate create_delayed
insert-Fails env endpoint input n JobTrigger.immediate key ep k c keyed taken =
    follow-Fails c.store _ _ (answered-Fails c.store _ (create_with-Fails _ k _ c taken))
insert-Fails env endpoint input n (JobTrigger.delayed run_at) key ep k c keyed taken =
    follow-Fails c.store _ _ (answered-Fails c.store _ (create_with-Fails _ k _ c taken))
insert-Fails env endpoint input n (JobTrigger.cron _ _ _ _ _) key ep k c keyed taken = absurd cc

create_body-Fails :
    (env : Env) (endpoint : String) (input : Json) (n : ℤ) (trigger : JobTrigger)
    (key : Option String) (k : Job) (s : Store) (faults : List (Option String))
    → is_keyed trigger ≡ true
    → find? (matches_key endpoint (get_or key "")) s.jobs ≡ some k
    → Fails s (create_body env endpoint input n trigger key (begin s faults))
unfolding Endpoints.get
create_body-Fails env endpoint input n trigger key k s faults keyed taken =
    read-Fails s _ (λ r. find? (named endpoint) r.endpoints) (begin s faults) refl
      (λ d same. or_reject-Fails s _ (find? (named endpoint) s.endpoints) _ d same (λ ep.
        subst (λ x. Fails x (insert env endpoint input n trigger key ep d)) same
          (insert-Fails env endpoint input n trigger key ep k d keyed
            (ap (λ x. find? (matches_key endpoint (get_or key "")) x.jobs) same ∙ taken))))

abbrev pub trigger_type : JobTrigger → TriggerType
trigger_type JobTrigger.immediate = TriggerType.immediate
trigger_type (JobTrigger.delayed run_at) = TriggerType.delayed
trigger_type (JobTrigger.cron _ _ _ _ _) = TriggerType.cron

abbrev pub run_at_of : JobTrigger → Option ℕ
run_at_of (JobTrigger.delayed run_at) = some run_at
run_at_of _ = none

-- The row of a job that has a key.
abbrev pub keyed_row : Env → Endpoint → Json → JobTrigger → Option String → Job
keyed_row env ep input trigger key =
    record (new_job env.job_id ep.name ep.endpoint_type (trigger_type trigger)
      (some (get_or key "")) (some input) env.now) { run_at = run_at_of trigger }

abbrev pub with_job : Job → Store → Store
with_job j s = record s { jobs = j ∷ s.jobs }

create_job_half :
    (env : Env) (ep : Endpoint) (input : Json) (n : ℤ) (trigger : JobTrigger) (key : Option String)
    (text : String) (s : Store)
    → is_keyed trigger ≡ true
    → find? (named ep.name) s.endpoints ≡ some ep
    → find? (has_job_id env.job_id) s.jobs ≡ none
    → find? (matches_key ep.name (get_or key "")) s.jobs ≡ none
    → create_job env ep.name input n trigger key (none ∷ none ∷ some text ∷ []) s
      ≡ (err (db_error (fault text)), with_job (keyed_row env ep input trigger key) s)
unfolding create_job create_immediate create_delayed insert_job Endpoints.get query
create_job_half env ep input n JobTrigger.immediate key text s keyed there free unused =
    rw (there, free, unused, there) refl
create_job_half env ep input n (JobTrigger.delayed run_at) key text s keyed there free unused =
    rw (there, free, unused, there) refl
create_job_half env ep input n (JobTrigger.cron _ _ _ _ _) key text s keyed there free unused =
    absurd cc

-- Where the endpoint has a job of the key, a call for an IMMEDIATE or DELAYED job fails and changes
-- nothing, whatever the faults; a call without a key is one with the empty key.
create_job_taken :
    (env : Env) (endpoint : String) (input : Json) (n : ℤ) (trigger : JobTrigger)
    (key : Option String) (k : Job) (s : Store) (faults : List (Option String))
    → is_keyed trigger ≡ true
    → find? (matches_key endpoint (get_or key "")) s.jobs ≡ some k
    → (e : ClientError) × (create_job env endpoint input n trigger key faults s ≡ (err e, s))
unfolding create_job
create_job_taken env endpoint input n trigger key k s faults keyed taken =
    let failed = create_body-Fails env endpoint input n trigger key k s faults keyed taken in
    (failed.0.0, rw (failed.0.1, failed.1) refl)

-- A fault between the two inserts of a call leaves a job without an execution, which no later call
-- with its key can repair: each fails and changes nothing, whatever its time, its input, its trigger
-- of IMMEDIATE and DELAYED, and its faults.
pub create_job_torn :
    (env again : Env) (ep : Endpoint) (input input' : Json) (n n' : ℤ)
    (trigger trigger' : JobTrigger) (key : Option String) (text : String)
    (faults : List (Option String)) (s : Store)
    → is_keyed trigger ≡ true
    → is_keyed trigger' ≡ true
    → find? (named ep.name) s.endpoints ≡ some ep
    → find? (has_job_id env.job_id) s.jobs ≡ none
    → find? (matches_key ep.name (get_or key "")) s.jobs ≡ none
    → (create_job env ep.name input n trigger key (none ∷ none ∷ some text ∷ []) s
        ≡ (err (db_error (fault text)), with_job (keyed_row env ep input trigger key) s))
      × ((e : ClientError) × (create_job again ep.name input' n' trigger' key faults
              (with_job (keyed_row env ep input trigger key) s)
            ≡ (err e, with_job (keyed_row env ep input trigger key) s)))
create_job_torn env again ep input input' n n' trigger trigger' key text faults s keyed keyed' there
      free unused =
    (
      create_job_half env ep input n trigger key text s keyed there free unused,
      create_job_taken again ep.name input' n' trigger' key (keyed_row env ep input trigger key)
          (with_job (keyed_row env ep input trigger key) s) faults keyed'
          (rw (eq_refl ep.name, eq_refl (get_or key "")) refl),
    )

-- The row of a CRON job.
abbrev pub cron_row :
    Env → Endpoint → Json → String → String → Option ℕ → Option ℕ → ℕ → Option String → Job
cron_row env ep input expression timezone starts_at ends_at first key =
    record (new_job env.job_id ep.name ep.endpoint_type TriggerType.cron key (some input) env.now) {
      cron_expression = some expression;
      cron_timezone = some timezone;
      cron_starts_at = starts_at;
      cron_ends_at = ends_at;
      cron_next_run_at = some first;
    }

-- With no fault, a call for a CRON job succeeds and makes the job, but no entry for pg_cron, so
-- nothing will run it; the call that cancels it retires it and then fails, as there is no entry.
pub create_job_unscheduled :
    (env : Env) (ep : Endpoint) (input : Json) (n : ℤ) (expression timezone : String)
    (starts_at ends_at : Option ℕ) (first now : ℕ) (key : Option String) (s : Store)
    → find? (named ep.name) s.endpoints ≡ some ep
    → find? (has_job_id env.job_id) s.jobs ≡ none
    → find?
        (takes_key (cron_row env ep input expression timezone starts_at ends_at first key))
        s.jobs
      ≡ none
    → find? (has_name (cron_job_name env.schema_name env.job_id)) s.cron_jobs ≡ none
    → (create_job env ep.name input n
          (JobTrigger.cron expression timezone starts_at ends_at first)
          key
          []
          s
        ≡ (
          ok env.job_id,
          with_job (cron_row env ep input expression timezone starts_at ends_at first key) s,
        ))
      × (cancel_job now env.schema_name env.job_id []
            (with_job (cron_row env ep input expression timezone starts_at ends_at first key) s)
          ≡ (
            err (db_error (fault (no_entry (cron_job_name env.schema_name env.job_id)))),
            record s {
              jobs =
                  retire now (cron_row env ep input expression timezone starts_at ends_at first key)
                  ∷ update_where (is_live env.job_id) (retire now) s.jobs;
            },
          ))
unfolding create_job create_cron insert_job Endpoints.get query cancel_job DbJobs.get DbJobs.cancel
    unregister_pg_cron
create_job_unscheduled env ep input n expression timezone starts_at ends_at first now key s there
      free unused absent =
    (
      rw (there, free, unused, there) refl,
      rw (eq_refl env.job_id, absent) (rw (eq_refl env.job_id) refl),
    )

-- ===== src/Handlers/Create/Again.antt =====
-- A request for a job that is sent again (crates/api/src/handlers/jobs.rs).
use mathlib.Core.Path.{subst}
use invokr.Base.{
  ◌≡◌, refl, sym, ap, ◌∙◌, inl, inr, Bool, false, Option, none, some, String, List, [], ◌∷◌, find?,
  eq_refl, get_or,
}
use invokr.Base.Int.{ℤ}
use invokr.Base.Map.{lookup}
use invokr.Base.Result.{Result, ok}
use invokr.Json.{Json}
use invokr.Store.{Store, Job, Execution, Endpoint, TriggerType, immediate, delayed, cron}
use invokr.Store.Enums.{trigger_type_of_text}
use invokr.Store.Conn.{begin, query}
use invokr.Errors.{AppError}
use invokr.PgCronExpr.{Calendar}
use invokr.Endpoints as Endpoints
use invokr.Endpoints.{named}
use invokr.Executions.{newest, of_job, get_for_job}
use invokr.Jobs.{CreateJobResult, matches_key, get_by_idempotency}
use invokr.Jobs.Inserts.{InsertedBoth}
use invokr.Handlers.{is_internal}
use invokr.Handlers.Create.{
  Env, CreateJob, Validation, Answer, replayed, created, get_payload_spec, validate_input, prepare,
  create, replay,
}
use invokr.Handlers.Create.Reads.{Fits, Allows}
use invokr.Handlers.Create.Rows.{Makes}
use invokr.Handlers.Create.Atomic.{create_atomic}

validate_input-Fits :
    (validate : Json → Json → Validation) (spec : Option String) (input : Option Json) (s : Store)
    → Fits validate spec input s
    → validate_input validate spec input (begin s []) ≡ (ok tt, begin s [])
unfolding get_payload_spec query
validate_input-Fits validate none input s fits = refl
validate_input-Fits validate (some spec) none s fits = refl
validate_input-Fits validate (some spec) (some input) s (schema, there, fit) =
    rw there (rw fit refl)

module _ {Schedule Tz : Type 0} (calendar : Calendar Schedule Tz) where
  module _ (env : Env) (body : CreateJob calendar) where
    prepare_replays :
        (s : Store) (trigger : TriggerType) (ep : Endpoint) (key : String) (j : Job)
        → trigger_type_of_text body.trigger ≡ some trigger
        → find? (named body.endpoint) s.endpoints ≡ some ep
        → is_internal ep.endpoint_type ≡ false
        → Fits env.validate ep.payload_spec_ref body.input s
        → body.idempotency_key ≡ some key
        → find? (matches_key body.endpoint key) s.jobs ≡ some j
        → prepare calendar env body (begin s [])
          ≡ (ok (replay j (newest (of_job j.job_id) s.executions)), begin s [])
    unfolding prepare query Endpoints.get get_by_idempotency get_for_job
    prepare_replays s trigger ep key j read there external fits keyed taken =
        rw (read, there, external)
          (rw (validate_input-Fits env.validate ep.payload_spec_ref body.input s fits, keyed)
            (rw taken refl))

    create_replays :
        (commits : Bool) (faults : List (Option String)) (s t : Store) (trigger : TriggerType)
        (ep : Endpoint) (key : String) (j : Job)
        → trigger_type_of_text body.trigger ≡ some trigger
        → find? (named body.endpoint) s.endpoints ≡ some ep
        → is_internal ep.endpoint_type ≡ false
        → Fits env.validate ep.payload_spec_ref body.input s
        → body.idempotency_key ≡ some key
        → find? (matches_key body.endpoint key) s.jobs ≡ some j
        → create calendar env body commits [] faults s t
          ≡ (ok (replayed j (newest (of_job j.job_id) s.executions)), t)
    unfolding create
    create_replays commits faults s t trigger ep key j read there external fits keyed taken =
        rw (prepare_replays s trigger ep key j read there external fits keyed taken) refl

  Fits-store :
      (validate : Json → Json → Validation) (spec : Option String) (input : Option Json)
      (s x : Store)
      → x.payload_specs ≡ s.payload_specs
      → Fits validate spec input s
      → Fits validate spec input x
  Fits-store validate none input s x same fits = tt
  Fits-store validate (some spec) none s x same fits = tt
  Fits-store validate (some spec) (some input) s x same (schema, there, fit) =
      (schema, ap (lookup spec) same ∙ there, fit)

  -- What of an insertion a second request sees.
  abbrev Holds : Job → Store → Store → Type 0
  Holds j s x =
      ((t : List Job) × (x.jobs ≡ j ∷ t))
      × (x.endpoints ≡ s.endpoints)
      × (x.payload_specs ≡ s.payload_specs)

  InsertedBoth-Holds :
      (j : Job) (e : Execution) (s x : Store) (r : CreateJobResult)
      → InsertedBoth j e s r x
      → (r.job ≡ j) × Holds j s x
  InsertedBoth-Holds j e s x r (same, (y, first, second)) =
      let jobs : x.jobs ≡ j ∷ s.jobs =
        ap (λ (z : Store). z.jobs) second.2 ∙ ap (λ (z : Store). z.jobs) first.3 in
      let endpoints : x.endpoints ≡ s.endpoints =
        ap (λ (z : Store). z.endpoints) second.2 ∙ ap (λ (z : Store). z.endpoints) first.3 in
      let specs : x.payload_specs ≡ s.payload_specs =
        ap (λ (z : Store). z.payload_specs) second.2
        ∙ ap (λ (z : Store). z.payload_specs) first.3 in
      (ap (λ (v : CreateJobResult). v.job) same, ((s.jobs, jobs), endpoints, specs))

  matches-head :
      (endpoint key : String) (j : Job) (t : List Job)
      → j.endpoint ≡ endpoint
      → j.idempotency_key ≡ some key
      → find? (matches_key endpoint key) (j ∷ t) ≡ some j
  matches-head endpoint key j t same keyed =
      rw (same, keyed) (rw (eq_refl endpoint, eq_refl key) refl)

  timed-Holds :
      (j : Job) (e : Execution) (s x : Store) (r v : CreateJobResult) (endpoint key : String)
      → created r ≡ created v
      → InsertedBoth j e s v x
      → j.endpoint ≡ endpoint
      → j.idempotency_key ≡ some key
      → (r.job.endpoint ≡ endpoint) × (r.job.idempotency_key ≡ some key) × Holds r.job s x
  timed-Holds j e s x r v endpoint key same made at_endpoint keyed =
      let one : r ≡ v = cc in
      let h = InsertedBoth-Holds j e s x v made in
      let row : r.job ≡ j = ap (λ (u : CreateJobResult). u.job) one ∙ h.0 in
      rw row (at_endpoint, keyed, h.1)

  -- The job that a first request has made carries its endpoint and its key.
  Made-Holds :
      (env : Env) (body : CreateJob calendar) (ep : Endpoint) (trigger : TriggerType) (attempts : ℤ)
      (s x : Store) (r : CreateJobResult) (key : String)
      → body.idempotency_key ≡ some key
      → Makes calendar env body ep trigger attempts s (created r) x
      → (r.job.endpoint ≡ body.endpoint) × (r.job.idempotency_key ≡ some key) × Holds r.job s x
  Made-Holds env body ep immediate attempts s x r key keyed (r2, same, made) =
      timed-Holds _ _ s x r r2 body.endpoint key same made refl
        (ap (λ o. some (get_or o env.generated_key)) keyed)
  Made-Holds env body ep delayed attempts s x r key keyed
        (k2, keyed2, (at, timed, (r2, same, made))) =
      timed-Holds _ _ s x r r2 body.endpoint key same made refl (sym keyed2 ∙ keyed)
  Made-Holds env body ep cron attempts s x r key keyed
        (e, _, (z, _, (tz, _, (next, _, (same, _))))) =
      absurd cc

  -- What the second request reads is, of what matters to it, what the first has left.
  abbrev pub IsKept : CreateJob calendar → String → Store → Store → Type 0
  IsKept body key x y =
      (y.payload_specs ≡ x.payload_specs)
      × (find? (named body.endpoint) y.endpoints ≡ find? (named body.endpoint) x.endpoints)
      × (find? (matches_key body.endpoint key) y.jobs
          ≡ find? (matches_key body.endpoint key) x.jobs)

  module _ (env again : Env) (body : CreateJob calendar) (s x y t : Store) (r : CreateJobResult)
      (key : String) where
    Allows-replays :
        (commits : Bool) (faults : List (Option String)) (trigger : TriggerType) (ep : Endpoint)
        (attempts : ℤ)
        → again.validate ≡ env.validate
        → body.idempotency_key ≡ some key
        → Allows calendar env body s trigger ep attempts
        → (r.job.endpoint ≡ body.endpoint) × (r.job.idempotency_key ≡ some key) × Holds r.job s x
        → IsKept body key x y
        → create calendar again body commits [] faults y t
          ≡ (ok (replayed r.job (newest (of_job r.job.job_id) y.executions)), t)
    Allows-replays commits faults trigger ep attempts same keyed (read, there, external, fits, _, _)
          (at, holds, ((rest, jobs), endpoints, specs)) (kept_specs, kept_endpoint, kept_job) =
        create_replays again body commits faults y t trigger ep key r.job read
          (kept_endpoint ∙ ap (find? (named body.endpoint)) endpoints ∙ there) external
          (Fits-store again.validate ep.payload_spec_ref body.input s y (kept_specs ∙ specs)
            (rw same fits))
          keyed
          (kept_job
            ∙ ap (find? (matches_key body.endpoint key)) jobs
            ∙ matches-head body.endpoint key r.job rest at holds)

    moved :
        (commits : Bool) (read_faults faults : List (Option String)) (trigger : TriggerType)
        (ep : Endpoint) (attempts : ℤ) (a : Answer)
        → create calendar env body commits read_faults faults s s ≡ (ok (created r), x)
        → (create calendar env body commits read_faults faults s s).0 ≡ ok a
        → Makes calendar env body ep trigger attempts s a
            (create calendar env body commits read_faults faults s s).1
        → Makes calendar env body ep trigger attempts s (created r) x
    moved commits read_faults faults trigger ep attempts a first answer made =
        let same : ◌≡◌ {A = Result AppError Answer} (ok a) (ok (created r)) =
          sym answer ∙ ap (λ p. p.0) first in
        let one : a ≡ created r = cc in
        subst (λ y. Makes calendar env body ep trigger attempts s (created r) y)
          (ap (λ p. p.1) first)
          (subst
            (λ b.
              Makes calendar env body ep trigger attempts s b
                (create calendar env body commits read_faults faults s s).1)
            one made)

    -- A request with a key that has been answered with a job and its execution, which it made, as
    -- IMMEDIATE and DELAYED requests are, is answered the next time, with no fault in its reads, with
    -- that job and its newest execution, and makes no other job: whatever the time, the ids that are
    -- drawn, and the state that other requests have left for a transaction, while what it reads has
    -- the payload specs, the endpoint and the job of the key as the first has left them.
    pub create_idempotent :
        (commits again_commits : Bool) (read_faults faults again_faults : List (Option String))
        → again.validate ≡ env.validate
        → body.idempotency_key ≡ some key
        → create calendar env body commits read_faults faults s s ≡ (ok (created r), x)
        → IsKept body key x y
        → create calendar again body again_commits [] again_faults y t
          ≡ (ok (replayed r.job (newest (of_job r.job.job_id) y.executions)), t)
    create_idempotent commits again_commits read_faults faults again_faults same keyed first kept =
        elim (create_atomic calendar env body s s commits read_faults faults) [
          | inl (e, failed, _) ↦ absurd (let h = ap (λ p. p.0) first in cc)
          | inr (inl (j, (e, _, old))) ↦ absurd (let h = first in cc)
          | inr (inr (trigger, (ep, (attempts, allowed, (a, answer, made))))) ↦
              Allows-replays again_commits again_faults trigger ep attempts same keyed allowed
                (Made-Holds env body ep trigger attempts s x r key keyed
                  (moved commits read_faults faults trigger ep attempts a first answer made))
                kept
        ]

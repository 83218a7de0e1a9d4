-- ===== src/Handlers/Create/Reads.antt =====
-- What a request for a job is known to satisfy when its transaction begins
-- (crates/api/src/handlers/jobs.rs).
use invokr.Base.{◌≡◌, refl, ◌⊎◌, inl, inr, false, Option, none, some, String, find?}
use invokr.Base.Int.{ℤ}
use invokr.Base.Map.{lookup}
use invokr.Json.{Json}
use invokr.Store.{Store, Job, Execution, Endpoint, TriggerType}
use invokr.Store.Enums.{trigger_type_of_text}
use invokr.Store.Conn.{Conn}
use invokr.Endpoints.{named, get_retry_policy}
use invokr.Endpoints as Endpoints
use invokr.Executions.{newest, of_job, get_for_job}
use invokr.Jobs.{matches_key, get_by_idempotency}
use invokr.PgCronExpr.{Calendar}
use invokr.Handlers.{is_internal}
use invokr.Handlers.Yields.{
  Yields, follow-Yields, or_reject-follow, guard-follow, update-follow, weaken-Yields,
}
use invokr.Handlers.Create.{
  Env, CreateJob, Validation, valid, bad_schema, bad_input, Prepared, replay, fresh, attempts_or,
  validated, validate_input, get_payload_spec, replay_or, find_replay, prepare,
}

-- The input has been validated, where there is a schema and an input.
abbrev pub Fits : (Json → Json → Validation) → Option String → Option Json → Store → Type 0
Fits validate (some spec) (some input) s =
    (schema : Json) × (lookup spec s.payload_specs ≡ some schema) × (validate input schema ≡ valid)
Fits validate _ _ s = Unit

-- No job has the request's key.
abbrev pub Unused : String → Option String → Store → Type 0
Unused endpoint none s = Unit
Unused endpoint (some key) s = find? (matches_key endpoint key) s.jobs ≡ none

abbrev pub Replays : String → Option String → Store → Job → Option Execution → Type 0
Replays endpoint key s j e =
    (k : String) × (key ≡ some k)
    × (find? (matches_key endpoint k) s.jobs ≡ some j)
    × (e ≡ newest (of_job j.job_id) s.executions)

validated-Yields :
    (v : Validation) (s : Store) (c : Conn)
    → c.aborted ≡ false
    → c.store ≡ s
    → Yields (λ _ x. (v ≡ valid) × (x ≡ s)) (validated v c)
validated-Yields valid s c alive same = inr (alive, (tt, refl, (refl, same)))
validated-Yields (bad_schema t) s c alive same = inl (_, refl)
validated-Yields (bad_input t) s c alive same = inl (_, refl)

validate_input-Yields :
    (validate : Json → Json → Validation) (spec : Option String) (input : Option Json) (s : Store)
    (c : Conn)
    → c.aborted ≡ false
    → c.store ≡ s
    → Yields (λ _ x. Fits validate spec input s × (x ≡ s)) (validate_input validate spec input c)
unfolding get_payload_spec
validate_input-Yields validate none input s c alive same = inr (alive, (tt, refl, (tt, same)))
validate_input-Yields validate (some spec) none s c alive same = inr (alive, (tt, refl, (tt, same)))
validate_input-Yields validate (some spec) (some input) s c alive same =
    update-follow goal _ (λ x. lookup spec x.payload_specs) (λ x. x) s c alive same
      (λ d live here. or_reject-follow goal _ (lookup spec s.payload_specs) _ d (λ schema there.
        weaken-Yields (λ _ x. (validate input schema ≡ valid) × (x ≡ s)) goal
          (validated (validate input schema) d)
          (validated-Yields (validate input schema) s d live here)
          (λ _ x h. ((schema, there, h.0), h.1))))
  where
    goal : Unit {0} → Store → Type 0
    goal _ x = Fits validate (some spec) (some input) s × (x ≡ s)

-- What the reads come to.
abbrev pub Finds : String → Option String → Store → Prepared → Prepared → Type 0
Finds endpoint key s otherwise p =
    (Unused endpoint key s × (p ≡ otherwise))
    ⊎ ((j : Job) × ((e : Option Execution) × Replays endpoint key s j e × (p ≡ replay j e)))

replay_or-Yields :
    (endpoint key : String) (s : Store) (otherwise : Prepared) (o : Option Job) (c : Conn)
    → find? (matches_key endpoint key) s.jobs ≡ o
    → c.aborted ≡ false
    → c.store ≡ s
    → Yields (λ p _. Finds endpoint (some key) s otherwise p) (replay_or otherwise o c)
unfolding get_for_job
replay_or-Yields endpoint key s otherwise none c found alive same =
    inr (alive, (otherwise, refl, inl (found, refl)))
replay_or-Yields endpoint key s otherwise (some j) c found alive same =
    update-follow (λ p _. Finds endpoint (some key) s otherwise p) _
      (λ x. newest (of_job j.job_id) x.executions) (λ x. x) s c alive same
      (λ d live here.
        let e = newest (of_job j.job_id) s.executions in
        inr (live, (replay j e, refl, inr (j, (e, (key, refl, found, refl), refl)))))

find_replay-Yields :
    (endpoint : String) (key : Option String) (s : Store) (otherwise : Prepared) (c : Conn)
    → c.aborted ≡ false
    → c.store ≡ s
    → Yields (λ p _. Finds endpoint key s otherwise p) (find_replay endpoint key otherwise c)
unfolding get_by_idempotency
find_replay-Yields endpoint none s otherwise c alive same =
    inr (alive, (otherwise, refl, inl (tt, refl)))
find_replay-Yields endpoint (some key) s otherwise c alive same =
    update-follow (λ p _. Finds endpoint (some key) s otherwise p) _
      (λ x. find? (matches_key endpoint key) x.jobs) (λ x. x) s c alive same
      (λ d live here. replay_or-Yields endpoint key s otherwise _ d refl live here)

module _ {Schedule Tz : Type 0} (calendar : Calendar Schedule Tz) where
  -- A new job is for an endpoint that is there and not INTERNAL, with an input that fits its
  -- schema and a key that no job has.
  abbrev pub Allows : Env → CreateJob calendar → Store → TriggerType → Endpoint → ℤ → Type 0
  Allows env body s trigger ep attempts =
      (trigger_type_of_text body.trigger ≡ some trigger)
      × (find? (named body.endpoint) s.endpoints ≡ some ep)
      × (is_internal ep.endpoint_type ≡ false)
      × Fits env.validate ep.payload_spec_ref body.input s
      × Unused body.endpoint body.idempotency_key s
      × (attempts ≡ attempts_or body.max_attempts (get_retry_policy ep).max_attempts)

  abbrev pub Prepares : Env → CreateJob calendar → Store → Prepared → Type 0
  Prepares env body s (replay j e) = Replays body.endpoint body.idempotency_key s j e
  Prepares env body s (fresh trigger ep attempts) = Allows env body s trigger ep attempts

  found-Prepares :
      (env : Env) (body : CreateJob calendar) (s : Store) (trigger : TriggerType) (ep : Endpoint)
      → (trigger_type_of_text body.trigger ≡ some trigger)
        × (find? (named body.endpoint) s.endpoints ≡ some ep)
        × (is_internal ep.endpoint_type ≡ false)
        × Fits env.validate ep.payload_spec_ref body.input s
      → (p : Prepared)
      → Finds body.endpoint body.idempotency_key s
          (fresh trigger ep (attempts_or body.max_attempts (get_retry_policy ep).max_attempts))
          p
      → Prepares env body s p
  found-Prepares env body s trigger ep h p (inl (unused, same)) =
      rw same (h.0, h.1, h.2, h.3, unused, refl)
  found-Prepares env body s trigger ep h p (inr (j, (e, found, same))) = rw same found

  pub prepare-Yields :
      (env : Env) (body : CreateJob calendar) (c : Conn)
      → c.aborted ≡ false
      → Yields (λ p _. Prepares env body c.store p) (prepare calendar env body c)
  unfolding prepare Endpoints.get
  prepare-Yields env body c alive =
      or_reject-follow goal _ (trigger_type_of_text body.trigger) _ c (λ trigger read.
        update-follow goal _ (λ s. find? (named body.endpoint) s.endpoints) (λ s. s) c.store c alive
          refl
          (λ d live here.
            or_reject-follow goal _ (find? (named body.endpoint) c.store.endpoints) _ d (λ ep there.
              guard-follow goal _ (is_internal ep.endpoint_type) _ d (λ external.
                follow-Yields
                  (λ _ x. Fits env.validate ep.payload_spec_ref body.input c.store × (x ≡ c.store))
                  goal _ (validate_input env.validate ep.payload_spec_ref body.input d)
                  (validate_input-Yields env.validate ep.payload_spec_ref body.input c.store d live
                    here)
                  (λ _ d1 live1 h1.
                    weaken-Yields
                      (λ p _.
                        Finds body.endpoint body.idempotency_key c.store
                          (fresh trigger ep
                            (attempts_or body.max_attempts (get_retry_policy ep).max_attempts))
                          p)
                      goal
                      (find_replay body.endpoint body.idempotency_key
                        (fresh trigger ep
                          (attempts_or body.max_attempts (get_retry_policy ep).max_attempts))
                        d1)
                      (find_replay-Yields body.endpoint body.idempotency_key c.store _ d1 live1
                        h1.1)
                      (λ p x found.
                        found-Prepares env body c.store trigger ep (read, there, external, h1.0) p
                          found))))))
    where
      goal : Prepared → Store → Type 0
      goal p _ = Prepares env body c.store p

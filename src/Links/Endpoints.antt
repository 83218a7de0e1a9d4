-- ===== src/Links/Endpoints.antt =====
-- That the statements on endpoints keep the references between the tables.
use invokr.Base.{
  ℕ, ◌≡◌, refl, sym, ◌∙◌, inl, inr, String, Bool, true, false, not, ◌&&◌, Option, none, some, List,
  ◌∷◌, find?, is_some, keep, All, All-weaken, All-join, Bool-cases, not-eq_false, arith, str_eq,
  eq_iff, or_else,
}
use invokr.Base.Rows.{
  find?-grows, find?-keep, is_some-find?-update, All-find?, All-keep, All-update, update_where,
}
use invokr.Base.Result.{Result, ok, guarded-ok}
use invokr.Json.{Json}
use invokr.Store.{Store, Endpoint, EndpointType, Job}
use invokr.Store.Conn.{DbError}
use invokr.Named.{ref_holds}
use invokr.Endpoints.{named, for_endpoint, revised, update_found}
use invokr.Endpoints as Endpoints
use invokr.Links.{EndpointIsLinked, JobIsLinked, IsLinked}
use invokr.Links.Keeps.{Keeps, query-Keeps}

pub create-Keeps :
    (now : ℕ) (name : String) (endpoint_type : EndpointType) (specs configs : Option String)
    (spec : Json) (retry_policy : Option Json)
    → Keeps IsLinked (Endpoints.create now name endpoint_type specs configs spec retry_policy)
unfolding Endpoints.create
create-Keeps now name endpoint_type specs configs spec retry_policy =
    query-Keeps IsLinked _ (λ s a x h l.
      let g = guarded-ok _ _ _ h in
      let g1 = guarded-ok _ _ _ g.1 in
      let g2 = guarded-ok _ _ _ g1.1 in
      let same : ◌≡◌ {A = Result DbError (Endpoint × Store)} (ok (row, made s)) (ok (a, x)) =
        g2.1 in
      let e : x ≡ made s = cc in
      rw e (
        ((not-eq_false g1.0, not-eq_false g2.0), l.0),
        All-weaken (JobIsLinked s.endpoints) (JobIsLinked (row ∷ s.endpoints)) s.jobs
            (λ j h. find?-grows (named j.endpoint) row s.endpoints h) l.1,
        l.2,
      ))
  where
    row : Endpoint
    row = record {
      name = name;
      endpoint_type = endpoint_type;
      payload_spec_ref = specs;
      config_ref = configs;
      spec = spec;
      retry_policy = retry_policy;
      created_at = now;
      updated_at = now;
    }

    made : Store → Store
    made s = record s { endpoints = row ∷ s.endpoints }

ref-or_else :
    {V : Type 0} (new old : Option String) (t : List (String × V))
    → ref_holds new t ≡ true
    → ref_holds old t ≡ true
    → ref_holds (or_else new old) t ≡ true
ref-or_else none old t h g = g
ref-or_else (some name) old t h g = h

pub update-Keeps :
    (now : ℕ) (name : String) (spec : Option Json) (configs specs : Option String)
    (retry_policy : Option Json)
    → Keeps IsLinked (Endpoints.update now name spec configs specs retry_policy)
unfolding Endpoints.update
update-Keeps now name spec configs specs retry_policy =
    query-Keeps IsLinked _ (λ s a x h l. run s (find? (named name) s.endpoints) a x h l)
  where
    f : Endpoint → Endpoint
    f = revised now spec configs specs retry_policy

    changed : Store → Store
    changed s = record s { endpoints = update_where (named name) f s.endpoints }

    run :
        (s : Store) (o : Option Endpoint) (a : Option Endpoint) (x : Store)
        → update_found f name configs specs s o ≡ ok (a, x)
        → IsLinked s
        → IsLinked x
    run s none a x h l = let e : s ≡ x = cc in rw (← e) l
    run s (some e) a x h l =
        let g = guarded-ok _ _ _ h in
        let g1 = guarded-ok _ _ _ g.1 in
        let same : ◌≡◌ {A = Result DbError (Option Endpoint × Store)} (ok (some (f e), changed s))
            (ok (a, x)) =
          g1.1 in
        let e : x ≡ changed s = cc same in
        rw e (
          All-update (EndpointIsLinked s.payload_specs s.configs) (named name) f s.endpoints
              (λ e h _. (
                ref-or_else specs e.payload_spec_ref s.payload_specs (not-eq_false g.0) h.0,
                ref-or_else configs e.config_ref s.configs (not-eq_false g1.0) h.1,
              ))
              l.0,
          All-weaken (JobIsLinked s.endpoints)
              (JobIsLinked (update_where (named name) f s.endpoints)) s.jobs
              (λ j h.
                is_some-find?-update (named j.endpoint) (named name) f s.endpoints (λ e. refl) ∙ h)
              l.1,
          l.2,
        )

-- A row that is there is spared when another name is deleted.
spared :
    (name : String) (j : Job) (t : List Endpoint)
    → for_endpoint name j ≡ false
    → JobIsLinked t j
    → JobIsLinked (keep (λ e. not (named name e)) t) j
spared name j t apart h =
    find?-keep (named j.endpoint) (λ e. not (named name e)) t
      (λ e hit.
        ground (arith, eq_iff e.name j.endpoint, eq_iff e.name name, eq_iff j.endpoint name))
      h

spared_missing :
    (name : String) (j : Job) (t : List Endpoint)
    → is_some (find? (named name) t) ≡ false
    → JobIsLinked t j
    → JobIsLinked (keep (λ e. not (named name e)) t) j
spared_missing name j t missing h = elim (Bool-cases (str_eq j.endpoint name)) [
  | inl same ↦ absurd (
      let e : j.endpoint ≡ name = ground (arith, eq_iff j.endpoint name) in
      let w : true ≡ false = sym (rw e at h) ∙ missing in cc)
  | inr apart ↦ spared name j t apart h
]

pub delete-Keeps : (name : String) → Keeps IsLinked (Endpoints.delete name)
unfolding Endpoints.delete
delete-Keeps name = query-Keeps IsLinked _ (λ s a x h l.
    let g = guarded-ok _ _ _ h in
    let same : ◌≡◌ {A = Result DbError (Bool × Store)}
        (ok (is_some (find? (named name) s.endpoints), gone s)) (ok (a, x)) =
      g.1 in
    let e : x ≡ gone s = cc in
    rw e (
      All-keep (EndpointIsLinked s.payload_specs s.configs) (λ e. not (named name e)) s.endpoints
          l.0,
      kept s g.0 l,
      l.2,
    ))
  where
    gone : Store → Store
    gone s = record s { endpoints = keep (λ e. not (named name e)) s.endpoints }

    kept :
        (s : Store)
        → (is_some (find? (named name) s.endpoints) && is_some (find? (for_endpoint name) s.jobs))
          ≡ false
        → IsLinked s
        → All (JobIsLinked (keep (λ e. not (named name e)) s.endpoints)) s.jobs
    kept s free l = elim (Bool-cases (is_some (find? (named name) s.endpoints))) [
      | inl there ↦
          All-join (λ j. for_endpoint name j ≡ false) (JobIsLinked s.endpoints)
            (JobIsLinked (keep (λ e. not (named name e)) s.endpoints)) s.jobs
            (λ j apart h. spared name j s.endpoints apart h)
            (All-find? (for_endpoint name) s.jobs (rw there at free)) l.1
      | inr missing ↦
          All-weaken (JobIsLinked s.endpoints)
            (JobIsLinked (keep (λ e. not (named name e)) s.endpoints)) s.jobs
            (λ j h. spared_missing name j s.endpoints missing h) l.1
    ]

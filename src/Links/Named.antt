-- ===== src/Links/Named.antt =====
-- That the statements on configs and payload specs keep the references of endpoints.
use invokr.Base.{
  ◌≡◌, refl, sym, ◌∙◌, inl, inr, String, Bool, true, false, not, ◌&&◌, Option, none, some, List,
  ◌∷◌, find?, is_some, All, All-weaken, All-join, Bool-cases, arith, str_eq, eq_iff,
}
use invokr.Base.Rows.{find?-grows, find?-keep, is_some-find?-update, All-find?}
use invokr.Base.Result.{Result, ok, guarded-ok}
use invokr.Json.{Json}
use invokr.Store.{Store}
use invokr.Store.Conn.{DbError}
use invokr.Named.{
  has_name, holds, ref_holds, refers, set_value, without, updated_row, uses_config,
  uses_payload_spec,
}
use invokr.Configs as Configs
use invokr.PayloadSpecs as PayloadSpecs
use invokr.Links.{EndpointIsLinked, IsLinked}
use invokr.Links.Keeps.{Keeps, query-Keeps, change-Keeps}

module _ {V : Type 0} where
  ref-grows :
      (o : Option String) (row : String × V) (t : List (String × V))
      → ref_holds o t ≡ true
      → ref_holds o (row ∷ t) ≡ true
  ref-grows none row t h = refl
  ref-grows (some name) row t h = find?-grows (has_name name) row t h

  ref-set :
      (o : Option String) (name : String) (v : V) (t : List (String × V))
      → ref_holds o (set_value name v t) ≡ ref_holds o t
  ref-set none name v t = refl
  ref-set (some other) name v t =
      is_some-find?-update (has_name other) (has_name name) (λ row. (row.0, v)) t (λ row. refl)

  ref-without :
      (o : Option String) (name : String) (t : List (String × V))
      → refers o name ≡ false
      → ref_holds o t ≡ true
      → ref_holds o (without name t) ≡ true
  ref-without none name t apart h = refl
  ref-without (some other) name t apart h =
      find?-keep (has_name other) (λ row. not (has_name name row)) t
        (λ row hit. ground (arith, eq_iff row.0 other, eq_iff row.0 name, eq_iff other name)) h

  -- Nothing refers to a name that is not there.
  ref-missing :
      (o : Option String) (name : String) (t : List (String × V))
      → holds name t ≡ false
      → ref_holds o t ≡ true
      → ref_holds o (without name t) ≡ true
  ref-missing none name t missing h = refl
  ref-missing (some other) name t missing h = elim (Bool-cases (str_eq other name)) [
    | inl same ↦ absurd (
        let e : other ≡ name = ground (arith, eq_iff other name) in
        let w : true ≡ false = sym (rw e at h) ∙ missing in cc)
    | inr apart ↦ ref-without (some other) name t apart h
  ]

pub Configs-create-Keeps : (name : String) (v : Json) → Keeps IsLinked (Configs.create name v)
unfolding Configs.create
Configs-create-Keeps name v = query-Keeps IsLinked _ (λ s a x h l.
    let same : ◌≡◌ {A = Result DbError ((String × Json) × Store)} (ok ((name, v), made s))
        (ok (a, x)) =
      (guarded-ok _ _ _ h).1 in
    let e : x ≡ made s = cc in
    rw e (
      All-weaken (EndpointIsLinked s.payload_specs s.configs)
          (EndpointIsLinked s.payload_specs ((name, v) ∷ s.configs)) s.endpoints
          (λ e h. (h.0, ref-grows e.config_ref (name, v) s.configs h.1)) l.0,
      l.1,
      l.2,
    ))
  where
    made : Store → Store
    made s = record s { configs = (name, v) ∷ s.configs }

pub Configs-update-Keeps : (name : String) (v : Json) → Keeps IsLinked (Configs.update name v)
unfolding Configs.update
Configs-update-Keeps name v =
    change-Keeps IsLinked (λ s. updated_row name v s.configs)
      (λ s. record s { configs = set_value name v s.configs })
      (λ s l. (
        All-weaken (EndpointIsLinked s.payload_specs s.configs)
            (EndpointIsLinked s.payload_specs (set_value name v s.configs)) s.endpoints
            (λ e h. (h.0, ref-set e.config_ref name v s.configs ∙ h.1)) l.0,
        l.1,
        l.2,
      ))

pub Configs-delete-Keeps : (name : String) → Keeps IsLinked (Configs.delete name)
unfolding Configs.delete
Configs-delete-Keeps name = query-Keeps IsLinked _ (λ s a x h l.
    let g = guarded-ok _ _ _ h in
    let same : ◌≡◌ {A = Result DbError (Bool × Store)} (ok (holds name s.configs, gone s))
        (ok (a, x)) =
      g.1 in
    let e : x ≡ gone s = cc in rw e (spared s g.0 l, l.1, l.2))
  where
    gone : Store → Store
    gone s = record s { configs = without name s.configs }

    spared :
        (s : Store)
        → (holds name s.configs && is_some (find? (uses_config name) s.endpoints)) ≡ false
        → IsLinked s
        → All (EndpointIsLinked s.payload_specs (without name s.configs)) s.endpoints
    spared s free l = elim (Bool-cases (holds name s.configs)) [
      | inl there ↦
          All-join (λ e. uses_config name e ≡ false) (EndpointIsLinked s.payload_specs s.configs)
            (EndpointIsLinked s.payload_specs (without name s.configs)) s.endpoints
            (λ e unused h. (h.0, ref-without e.config_ref name s.configs unused h.1))
            (All-find? (uses_config name) s.endpoints (rw there at free)) l.0
      | inr missing ↦
          All-weaken (EndpointIsLinked s.payload_specs s.configs)
            (EndpointIsLinked s.payload_specs (without name s.configs)) s.endpoints
            (λ e h. (h.0, ref-missing e.config_ref name s.configs missing h.1)) l.0
    ]

pub PayloadSpecs-create-Keeps :
    (name : String) (v : Json) → Keeps IsLinked (PayloadSpecs.create name v)
unfolding PayloadSpecs.create
PayloadSpecs-create-Keeps name v = query-Keeps IsLinked _ (λ s a x h l.
    let same : ◌≡◌ {A = Result DbError ((String × Json) × Store)} (ok ((name, v), made s))
        (ok (a, x)) =
      (guarded-ok _ _ _ h).1 in
    let e : x ≡ made s = cc in
    rw e (
      All-weaken (EndpointIsLinked s.payload_specs s.configs)
          (EndpointIsLinked ((name, v) ∷ s.payload_specs) s.configs) s.endpoints
          (λ e h. (ref-grows e.payload_spec_ref (name, v) s.payload_specs h.0, h.1)) l.0,
      l.1,
      l.2,
    ))
  where
    made : Store → Store
    made s = record s { payload_specs = (name, v) ∷ s.payload_specs }

pub PayloadSpecs-update-Keeps :
    (name : String) (v : Json) → Keeps IsLinked (PayloadSpecs.update name v)
unfolding PayloadSpecs.update
PayloadSpecs-update-Keeps name v =
    change-Keeps IsLinked (λ s. updated_row name v s.payload_specs)
      (λ s. record s { payload_specs = set_value name v s.payload_specs })
      (λ s l. (
        All-weaken (EndpointIsLinked s.payload_specs s.configs)
            (EndpointIsLinked (set_value name v s.payload_specs) s.configs) s.endpoints
            (λ e h. (ref-set e.payload_spec_ref name v s.payload_specs ∙ h.0, h.1)) l.0,
        l.1,
        l.2,
      ))

pub PayloadSpecs-delete-Keeps : (name : String) → Keeps IsLinked (PayloadSpecs.delete name)
unfolding PayloadSpecs.delete
PayloadSpecs-delete-Keeps name = query-Keeps IsLinked _ (λ s a x h l.
    let g = guarded-ok _ _ _ h in
    let same : ◌≡◌ {A = Result DbError (Bool × Store)} (ok (holds name s.payload_specs, gone s))
        (ok (a, x)) =
      g.1 in
    let e : x ≡ gone s = cc in rw e (spared s g.0 l, l.1, l.2))
  where
    gone : Store → Store
    gone s = record s { payload_specs = without name s.payload_specs }

    spared :
        (s : Store)
        → (holds name s.payload_specs && is_some (find? (uses_payload_spec name) s.endpoints))
          ≡ false
        → IsLinked s
        → All (EndpointIsLinked (without name s.payload_specs) s.configs) s.endpoints
    spared s free l = elim (Bool-cases (holds name s.payload_specs)) [
      | inl there ↦
          All-join (λ e. uses_payload_spec name e ≡ false)
            (EndpointIsLinked s.payload_specs s.configs)
            (EndpointIsLinked (without name s.payload_specs) s.configs) s.endpoints
            (λ e unused h. (ref-without e.payload_spec_ref name s.payload_specs unused h.0, h.1))
            (All-find? (uses_payload_spec name) s.endpoints (rw there at free)) l.0
      | inr missing ↦
          All-weaken (EndpointIsLinked s.payload_specs s.configs)
            (EndpointIsLinked (without name s.payload_specs) s.configs) s.endpoints
            (λ e h. (ref-missing e.payload_spec_ref name s.payload_specs missing h.0, h.1)) l.0
    ]

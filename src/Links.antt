-- ===== src/Links.antt =====
-- The references between the tables of a workspace, which the foreign keys of
-- crates/common/migrations/workspace_v1.sql are to keep.
pub mod Keeps
pub mod Named
pub mod Endpoints
pub mod Jobs
pub mod JobRequests
pub mod Requests
pub mod Histories
use invokr.Base.{◌≡◌, String, true, List, find?, is_some, All}
use invokr.Json.{Json}
use invokr.Store.{Store, Endpoint, Job, Execution}
use invokr.Named.{ref_holds}
use invokr.Endpoints.{named}
use invokr.Jobs.{has_job_id}

abbrev pub EndpointIsLinked : List (String × Json) → List (String × Json) → Endpoint → Type 0
EndpointIsLinked specs configs e =
    (ref_holds e.payload_spec_ref specs ≡ true) × (ref_holds e.config_ref configs ≡ true)

abbrev pub JobIsLinked : List Endpoint → Job → Type 0
JobIsLinked endpoints j = is_some (find? (named j.endpoint) endpoints) ≡ true

abbrev pub ExecutionIsLinked : List Job → Execution → Type 0
ExecutionIsLinked jobs e = is_some (find? (has_job_id e.job_id) jobs) ≡ true

-- What a row refers to is there.
abbrev pub IsLinked : Store → Type 0
IsLinked s =
    All (EndpointIsLinked s.payload_specs s.configs) s.endpoints
    × All (JobIsLinked s.endpoints) s.jobs
    × All (ExecutionIsLinked s.jobs) s.executions

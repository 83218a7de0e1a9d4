-- ===== src/Store/Enums.antt =====
-- `as_str` and `from_str_val` of the enums in crates/common/src/models.
use invokr.Base.{◌≡◌, refl, String, Option, none, some, arith, str_eq, eq_iff, if◌then◌else◌, ◌↔◌}
use invokr.Store.{
  EndpointType, http, kafka, redis_stream, internal, TriggerType, immediate, delayed, cron,
  JobStatus, active, retired, ExecutionStatus, pending, queued, running, retrying, success, failed,
  cancelled,
}

unfoldable pub endpoint_type_text : EndpointType → String
endpoint_type_text http = "HTTP"
endpoint_type_text kafka = "KAFKA"
endpoint_type_text redis_stream = "REDIS_STREAM"
endpoint_type_text internal = "INTERNAL"

unfoldable pub endpoint_type_of_text : String → Option EndpointType
endpoint_type_of_text s =
    if str_eq s "HTTP"
    then some http
    else if str_eq s "KAFKA"
    then some kafka
    else if str_eq s "REDIS_STREAM"
    then some redis_stream
    else if str_eq s "INTERNAL"
    then some internal
    else none

unfoldable pub trigger_type_text : TriggerType → String
trigger_type_text immediate = "IMMEDIATE"
trigger_type_text delayed = "DELAYED"
trigger_type_text cron = "CRON"

unfoldable pub trigger_type_of_text : String → Option TriggerType
trigger_type_of_text s =
    if str_eq s "IMMEDIATE"
    then some immediate
    else if str_eq s "DELAYED"
    then some delayed
    else if str_eq s "CRON"
    then some cron
    else none

unfoldable pub job_status_text : JobStatus → String
job_status_text active = "ACTIVE"
job_status_text retired = "RETIRED"

unfoldable pub job_status_of_text : String → Option JobStatus
job_status_of_text s =
    if str_eq s "ACTIVE" then some active else if str_eq s "RETIRED" then some retired else none

unfoldable pub execution_status_text : ExecutionStatus → String
execution_status_text pending = "PENDING"
execution_status_text queued = "QUEUED"
execution_status_text running = "RUNNING"
execution_status_text retrying = "RETRYING"
execution_status_text success = "SUCCESS"
execution_status_text failed = "FAILED"
execution_status_text cancelled = "CANCELLED"

read : (s : String) (t : EndpointType) → endpoint_type_of_text s ≡ some t → s ≡ endpoint_type_text t
unfolding endpoint_type_of_text endpoint_type_text
read s t h =
    ground (arith, eq_iff s "HTTP", eq_iff s "KAFKA", eq_iff s "REDIS_STREAM", eq_iff s "INTERNAL")

-- A text is read as an endpoint type exactly when it is that type's own text.
pub endpoint_type_of_text_iff :
    (s : String) (t : EndpointType)
    → (endpoint_type_of_text s ≡ some t) ↔ (s ≡ endpoint_type_text t)
unfolding endpoint_type_of_text endpoint_type_text
endpoint_type_of_text_iff s http = (λ h. read s http h, λ e. rw e refl)
endpoint_type_of_text_iff s kafka = (λ h. read s kafka h, λ e. rw e refl)
endpoint_type_of_text_iff s redis_stream = (λ h. read s redis_stream h, λ e. rw e refl)
endpoint_type_of_text_iff s internal = (λ h. read s internal h, λ e. rw e refl)

-- ===== src/Rpc/Jobs.antt =====
-- internal/grpcapi/jobs.go.
use arbiter_distributed_sche.Base.{
  List, Option, String, [], coalesce, if◌then◌else◌, map, not, str_eq, ℕ, ◌∷◌,
}
use arbiter_distributed_sche.Base.Int.{leb_ℤ, pos, ℤ}
use arbiter_distributed_sche.Rpc.{
  Handler, LeaderGate, NodeResources, Status, caused, get_cpu, get_memory, lacks_resources, led_by,
  not_found, plain, refuse, reject_if, reply, require_leader, transact,
}
use arbiter_distributed_sche.Store.{Job, Labels, SchedulingPolicy, Task, TaskStatus, text}
use arbiter_distributed_sche.Store.Jobs.{
  CreateJobParams, create_job, get_job, is_named_policy, list_jobs, policy_or_default,
}
use arbiter_distributed_sche.Store.Nodes.{task_ids}
use arbiter_distributed_sche.Store.Tasks.{get_task, list_tasks}

pub record SubmitJobRequest : Type 0 where
  pub name : String
  pub image : String
  pub command : List String
  pub request : Option NodeResources
  pub replicas : ℤ
  pub retry_limit : ℤ
  pub scheduling_policy : SchedulingPolicy
  pub constraints : Labels

-- `if n <= 0 { n = default }`
abbrev count_or : ℕ → ℤ → ℤ
count_or default n = if leb_ℤ n (pos 0) then pos default else n

abbrev job_params : SubmitJobRequest → CreateJobParams
job_params req = record {
  name = req.name;
  image = req.image;
  command = req.command;
  cpu_request_millicores = get_cpu req.request;
  mem_request_mb = get_memory req.request;
  replicas = count_or 1 req.replicas;
  retry_limit = count_or 3 req.retry_limit;
  scheduling_policy = policy_or_default req.scheduling_policy;
  constraints = req.constraints;
}

-- The Job message.
pub record JobMessage : Type 0 where
  pub id : String
  pub name : String
  pub image : String
  pub command : List String
  pub request : NodeResources
  pub replicas : ℤ
  pub retry_limit : ℤ
  pub scheduling_policy : SchedulingPolicy
  pub constraints : Labels

-- `toProtoJob`
unfoldable pub to_proto_job : Job → JobMessage
to_proto_job j = record {
  id = j.id;
  name = j.name;
  image = j.image;
  command = j.command;
  request = record { cpu_millicores = j.cpu_request_millicores; memory_mb = j.mem_request_mb };
  replicas = j.replicas;
  retry_limit = j.retry_limit;
  scheduling_policy = j.scheduling_policy;
  constraints = j.constraints;
}

-- `SubmitJob`
unfoldable pub handle_submit_job :
    Option LeaderGate → String → (ℕ → String) → ℕ → SubmitJobRequest → Handler JobMessage
unfolding require_leader create_job policy_or_default is_named_policy to_proto_job
handle_submit_job leader job_id task_ids now req = led_by leader (
    reject_if (str_eq req.name "") "name is required" (
      reject_if (str_eq req.image "") "image is required" (
        reject_if (lacks_resources req.request)
          "request.cpu_millicores and request.memory_mb must both be positive"
          (reject_if (not (is_named_policy (policy_or_default req.scheduling_policy)))
            "unsupported scheduling_policy"
            (λ w.
              transact (create_job job_id task_ids now (job_params req)) w
                (λ e w'. (refuse (caused (text "submit job: " ∷ []) e), w'))
                (λ job w'. (reply (to_proto_job job), w')))))))

-- A read that finds no row is NotFound.
abbrev missing : String → Status
missing message = plain not_found (text message ∷ [])

-- `GetJob`
unfoldable pub handle_get_job : String → Handler JobMessage
unfolding get_job to_proto_job
handle_get_job job_id = reject_if (str_eq job_id "") "job_id is required" (λ w.
    transact (get_job job_id) w (λ e w'. (refuse (missing "job not found"), w'))
      (λ job w'. (reply (to_proto_job job), w')))

-- The Task message: nil pointers read as zero values.
pub record TaskMessage : Type 0 where
  pub id : String
  pub job_id : String
  pub status : TaskStatus
  pub assigned_node_id : String
  pub retries_used : ℕ
  pub exit_code : ℤ
  pub last_error : String

-- `toProtoTask`
unfoldable pub to_proto_task : Task → TaskMessage
to_proto_task t = record {
  id = t.id;
  job_id = t.job_id;
  status = t.status;
  assigned_node_id = coalesce t.assigned_node_id "";
  retries_used = t.retries_used;
  exit_code = coalesce t.exit_code (pos 0);
  last_error = coalesce t.last_error "";
}

-- `GetTask`
unfoldable pub handle_get_task : String → Handler TaskMessage
unfolding get_task to_proto_task
handle_get_task task_id = reject_if (str_eq task_id "") "task_id is required" (λ w.
    transact (get_task task_id) w (λ e w'. (refuse (missing "task not found"), w'))
      (λ task w'. (reply (to_proto_task task), w')))

-- `ListJobs`
unfoldable pub handle_list_jobs : Handler (List JobMessage)
unfolding list_jobs to_proto_job
handle_list_jobs w = (reply (map to_proto_job (list_jobs w.db)), w)

-- `ListTasks`
unfoldable pub handle_list_tasks : String → Handler (List TaskMessage)
unfolding list_tasks to_proto_task
handle_list_tasks job_id w = (reply (map to_proto_task (list_tasks job_id w.db)), w)

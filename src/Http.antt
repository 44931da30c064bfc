-- ===== src/Http.antt =====
-- internal/httpapi/api.go: the handlers of the dashboard's API, from the tables that they find to
-- an answer and the tables that they leave. Headers and JSON are left out.
pub mod Submitting
pub mod Stream
use arbiter_distributed_sche.Base.{
  Bool, List, Option, String, false, if◌then◌else◌, inl, inr, map, none, some, str_eq, true, ℕ,
  ◌||◌,
}
use arbiter_distributed_sche.Base.Int.{leb_ℤ, ltb_ℤ, pos, ℤ}
use arbiter_distributed_sche.Docker.{DockerError, Engine, Try}
use arbiter_distributed_sche.Docker.Workers.{task_logs}
use arbiter_distributed_sche.Rpc.{LeaderGate}
use arbiter_distributed_sche.Store.{
  Db, Error, Event, Job, Labels, Node, NodeStatus, Result, SchedulingPolicy, Task, err,
  job_not_found, ok, task_not_found,
}
use arbiter_distributed_sche.Store.Allocation.{NodeAllocation, get_node_allocations}
use arbiter_distributed_sche.Store.Events.{list_recent_events}
use arbiter_distributed_sche.Store.Jobs.{
  CreateJobParams, create_job, get_job, list_jobs, policy_or_default,
}
use arbiter_distributed_sche.Store.Nodes.{list_nodes}
use arbiter_distributed_sche.Store.Tasks.{get_task, list_tasks}

-- What stands behind the key "error".
pub data HttpFault : Type 0 where
  error_text : String → HttpFault
  store_error : Error → HttpFault
  not_leader_at : String → HttpFault
  docker_error : DockerError → HttpFault

-- `writeJSON`: the status, with a value or an error.
pub data HttpReply (A : Type 0) : Type 0 where
  wrote : ℕ → A → HttpReply A
  faulted : ℕ → HttpFault → HttpReply A

abbrev pub HttpHandler : Type 0 → Type 0
HttpHandler A = Db → HttpReply A × Db

-- `requireLeader`: a nil gate lets everything through.
unfoldable pub leader_fault : Option LeaderGate → Option HttpFault
leader_fault none = none
leader_fault (some gate) = if gate.is_leader then none else some (not_leader_at gate.leader_addr)

-- `errors.Is(err, store.ErrJobNotFound)`
unfoldable pub is_missing_job : Error → Bool
is_missing_job job_not_found = true
is_missing_job _ = false

-- `errors.Is(err, store.ErrTaskNotFound)`
unfoldable pub is_missing_task : Error → Bool
is_missing_task task_not_found = true
is_missing_task _ = false

-- The answer to a read of one row.
unfoldable pub reply_found :
    {A : Type 0} → (Error → Bool) → String → Db → Result (A × Db) → HttpReply A × Db
reply_found is_missing message db (err e) =
    (if is_missing e then faulted 404 (error_text message) else faulted 500 (store_error e), db)
reply_found is_missing message db (ok (a, db')) = (wrote 200 a, db')

-- `handleGetJob`
unfoldable pub http_get_job : String → HttpHandler Job
unfolding reply_found is_missing_job get_job
http_get_job id db = reply_found is_missing_job "job not found" db (get_job id db)

-- `handleGetTask`
unfoldable pub http_get_task : String → HttpHandler Task
unfolding reply_found is_missing_task get_task
http_get_task id db = reply_found is_missing_task "task not found" db (get_task id db)

-- `handleListJobs`
unfoldable pub http_list_jobs : HttpHandler (List Job)
unfolding list_jobs
http_list_jobs db = (wrote 200 (list_jobs db), db)

-- `handleListTasks`
unfoldable pub http_list_tasks : String → HttpHandler (List Task)
unfolding list_tasks
http_list_tasks job_id db = (wrote 200 (list_tasks job_id db), db)

-- One entry of "nodes".
pub record NodeView : Type 0 where
  pub id : String
  pub hostname : String
  pub address : String
  pub status : NodeStatus
  pub epoch : ℕ
  pub labels : Option Labels
  pub capacity : NodeAllocation
  pub allocated : NodeAllocation

unfoldable pub node_view : (String → NodeAllocation) → Node → NodeView
node_view allocs n = record {
  id = n.id;
  hostname = n.hostname;
  address = n.address;
  status = n.status;
  epoch = n.epoch;
  labels = n.labels;
  capacity = record { cpu_millicores = n.cpu_capacity_millicores; memory_mb = n.mem_capacity_mb };
  allocated = allocs n.id;
}

unfoldable pub reply_nodes :
    Db → Result ((String → NodeAllocation) × Db) → HttpReply (List NodeView) × Db
unfolding node_view list_nodes
reply_nodes db (err e) = (faulted 500 (store_error e), db)
reply_nodes db (ok (allocs, db')) = (wrote 200 (map (node_view allocs) (list_nodes db)), db')

-- `handleListNodes`
unfoldable pub http_list_nodes : HttpHandler (List NodeView)
unfolding reply_nodes get_node_allocations
http_list_nodes db = reply_nodes db (get_node_allocations db)

-- A number of a query, where it is one and positive. `parsed` is what `strconv.Atoi` makes of it.
unfoldable pub positive_or : ℤ → Option ℤ → ℤ
positive_or default none = default
positive_or default (some n) = if ltb_ℤ (pos 0) n then n else default

-- `handleListEvents`
unfoldable pub http_list_events : Option ℤ → HttpHandler (List Event)
unfolding positive_or list_recent_events
http_list_events parsed db = (wrote 200 (list_recent_events (positive_or (pos 50) parsed) db), db)

-- The answer to a read of logs.
unfoldable pub reply_logs : Try (Option (List ℕ)) → HttpReply (List ℕ)
reply_logs (inl e) = faulted 500 (docker_error e)
reply_logs (inr none) =
    faulted 404 (error_text "no container found for task (may have exited and been auto-removed)")
reply_logs (inr (some raw)) = wrote 200 raw

-- `handleTaskLogs`: no engine stands for a nil client. The logs are the bytes of their text.
unfoldable pub http_task_logs :
    {D : Type 0} → Option (Engine D) → String → Option ℤ → D → HttpReply (List ℕ)
unfolding reply_logs positive_or task_logs
http_task_logs none id parsed d = faulted 503 (error_text "docker client unavailable")
http_task_logs (some engine) id parsed d =
    reply_logs (task_logs engine id (positive_or (pos 200) parsed) d)

-- `submitJobBody`
pub record SubmitJobBody : Type 0 where
  pub name : String
  pub image : String
  pub command : List String
  pub cpu_millicores : ℤ
  pub memory_mb : ℤ
  pub replicas : ℤ
  pub retry_limit : ℤ
  pub scheduling_policy : SchedulingPolicy
  pub constraints : Labels

-- `body.Name == "" || body.Image == "" || body.CPUMillicores <= 0 || body.MemoryMB <= 0`
unfoldable pub lacks_fields : SubmitJobBody → Bool
lacks_fields b =
    str_eq b.name ""
    || str_eq b.image ""
    || leb_ℤ b.cpu_millicores (pos 0)
    || leb_ℤ b.memory_mb (pos 0)

-- The defaults, and the parameters of `CreateJob`.
unfoldable pub submit_params : SubmitJobBody → CreateJobParams
unfolding policy_or_default
submit_params b = record {
  name = b.name;
  image = b.image;
  command = b.command;
  cpu_request_millicores = b.cpu_millicores;
  mem_request_mb = b.memory_mb;
  replicas = if leb_ℤ b.replicas (pos 0) then pos 1 else b.replicas;
  retry_limit = if leb_ℤ b.retry_limit (pos 0) then pos 3 else b.retry_limit;
  scheduling_policy = policy_or_default b.scheduling_policy;
  constraints = b.constraints;
}

unfoldable pub reply_created : Db → Result (Job × Db) → HttpReply Job × Db
reply_created db (err e) = (faulted 500 (store_error e), db)
reply_created db (ok (job, db')) = (wrote 201 job, db')

-- The handler behind the gate: no body stands for one that is not JSON.
unfoldable pub submit_body : String → (ℕ → String) → ℕ → Option SubmitJobBody → HttpHandler Job
unfolding lacks_fields submit_params create_job reply_created
submit_body job_id ids now none db = (faulted 400 (error_text "invalid JSON body"), db)
submit_body job_id ids now (some b) db =
    if lacks_fields b
    then (faulted 400 (error_text "name, image, cpu_millicores, and memory_mb are required"), db)
    else reply_created db (create_job job_id ids now (submit_params b) db)

unfoldable pub submit_behind :
    Option HttpFault → String → (ℕ → String) → ℕ → Option SubmitJobBody → HttpHandler Job
unfolding submit_body
submit_behind (some fault) job_id ids now body db = (faulted 409 fault, db)
submit_behind none job_id ids now body db = submit_body job_id ids now body db

-- `handleSubmitJob`
unfoldable pub http_submit_job :
    Option LeaderGate → String → (ℕ → String) → ℕ → Option SubmitJobBody → HttpHandler Job
unfolding leader_fault submit_behind
http_submit_job leader job_id ids now body db =
    submit_behind (leader_fault leader) job_id ids now body db

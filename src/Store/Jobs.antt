-- ===== src/Store/Jobs.antt =====
pub mod Creation
use arbiter_distributed_sche.Base.{
  Bool, List, String, [], false, find, if◌then◌else◌, none, order_by, str_eq, suc, true, zero, ℕ,
  ◌&&◌, ◌++◌, ◌+◌, ◌∷◌,
}
use arbiter_distributed_sche.Base.Int.{leb_ℤ, ltb_ℤ, pos, pos_part, ℤ}
use arbiter_distributed_sche.Store.{
  Db, Job, Labels, SchedulingPolicy, Task, Tx, bin_pack, check_violation, get, guard, integer,
  job_entity, job_not_found, job_submitted, modify, or_throw, other_policy, pending, pure,
  replicas_below_one, spread, text, ◌>>=◌, ◌>>◌,
}
use arbiter_distributed_sche.Store.Events.{insert_event}
use arbiter_distributed_sche.Store.Nodes.{task_ids}

-- internal/store/jobs_tasks.go: jobs. The ids that the database draws and the time come as
-- arguments. The checks are those of migrations/000003_create_jobs_and_tasks.up.sql.
pub record CreateJobParams : Type 0 where
  pub name : String
  pub image : String
  pub command : List String
  pub cpu_request_millicores : ℤ
  pub mem_request_mb : ℤ
  pub replicas : ℤ
  pub retry_limit : ℤ
  pub scheduling_policy : SchedulingPolicy
  pub constraints : Labels

-- The empty text selects the default.
unfoldable pub policy_or_default : SchedulingPolicy → SchedulingPolicy
policy_or_default (other_policy s) = if str_eq s "" then bin_pack else other_policy s
policy_or_default bin_pack = bin_pack
policy_or_default spread = spread

unfoldable pub is_named_policy : SchedulingPolicy → Bool
is_named_policy (other_policy s) = false
is_named_policy bin_pack = true
is_named_policy spread = true

-- The CHECK constraints of the jobs table.
unfoldable pub job_checks : Job → Bool
unfolding is_named_policy
job_checks j =
    leb_ℤ (pos 1) j.replicas
    && (ltb_ℤ (pos 0) j.cpu_request_millicores
        && (ltb_ℤ (pos 0) j.mem_request_mb && is_named_policy j.scheduling_policy))

-- A row of tasks under the column defaults.
unfoldable pub new_task : String → String → ℕ → Task
new_task id job_id now = record {
  id = id;
  job_id = job_id;
  status = pending;
  assigned_node_id = none;
  assigned_epoch = none;
  retries_used = 0;
  exit_code = none;
  last_error = none;
  created_at = now;
  scheduled_at = none;
  started_at = none;
  finished_at = none;
  next_retry_at = none;
}

-- The loop `for i := 0; i < replicas; i++` from round `i`, with the number of rounds left first.
unfoldable pub insert_tasks : ℕ → ℕ → (ℕ → String) → String → ℕ → Tx (Unit {0})
unfolding new_task
insert_tasks zero i ids job_id now = pure tt
insert_tasks (suc left) i ids job_id now =
    modify (λ db. record db { tasks = db.tasks ++ new_task (ids i) job_id now ∷ [] })
    >> insert_tasks left (i + 1) ids job_id now

-- The row that `INSERT INTO jobs` makes.
unfoldable pub new_job : String → ℕ → CreateJobParams → Job
unfolding policy_or_default
new_job id now params = record {
  id = id;
  name = params.name;
  image = params.image;
  command = params.command;
  cpu_request_millicores = params.cpu_request_millicores;
  mem_request_mb = params.mem_request_mb;
  replicas = params.replicas;
  retry_limit = params.retry_limit;
  scheduling_policy = policy_or_default params.scheduling_policy;
  constraints = params.constraints;
  created_at = now;
}

-- `CreateJob`
unfoldable pub create_job : String → (ℕ → String) → ℕ → CreateJobParams → Tx Job
unfolding insert_event
create_job job_id task_ids now params = do
  guard (leb_ℤ (pos 1) params.replicas) replicas_below_one
  let job = new_job job_id now params
  guard (job_checks job) check_violation
  modify (λ db. record db { jobs = db.jobs ++ job ∷ [] })
  insert_tasks (pos_part params.replicas) 0 task_ids job_id now
  insert_event now job_entity job_id job_submitted (
      text "job submitted: name="
      ∷ text job.name
      ∷ text " replicas="
      ∷ integer job.replicas
      ∷ text " image="
      ∷ text job.image
      ∷ [])
  pure job

-- `GetJob`
unfoldable pub get_job : String → Tx Job
get_job id = do db ← get; or_throw (find (λ j. str_eq j.id id) db.jobs) job_not_found

-- `ListJobs`
unfoldable pub list_jobs : Db → List Job
list_jobs db = order_by (λ j. j.created_at) db.jobs

-- ===== src/Store/Tasks.antt =====
-- internal/store/jobs_tasks.go: tasks, and their join with jobs. The time comes as an argument.
pub mod Claims
use arbiter_distributed_sche.Base.{
  Bool, List, Option, String, [], count, false, find, if◌then◌else◌, leb, none, order_by, select,
  some, str_eq, take, true, update, ℕ, ◌&&◌, ◌==◌, ◌∷◌,
}
use arbiter_distributed_sche.Base.Int.{ℤ}
use arbiter_distributed_sche.Store.{
  Db, Job, Labels, SchedulingPolicy, Task, TaskStatus, Tx, get, guard, modify, number, or_throw,
  pending, pure, same_status, scheduled, task_entity, task_not_found, task_scheduled, text,
  unexpected_row_count, ◌>>=◌, ◌>>◌,
}
use arbiter_distributed_sche.Store.Events.{insert_event}

-- `TaskWithJob`: a row of tasks joined with its job.
pub record TaskWithJob : Type 0 where
  pub task : Task
  pub open task use *
  pub image : String
  pub command : List String
  pub cpu_request_millicores : ℤ
  pub mem_request_mb : ℤ
  pub retry_limit : ℤ
  pub scheduling_policy : SchedulingPolicy
  pub constraints : Labels

pub record UpdateTaskStatusParams : Type 0 where
  pub task_id : String
  pub status : TaskStatus
  pub exit_code : Option ℤ
  pub error : String
  pub node_id : String
  pub epoch : ℕ

-- `GetTask`
unfoldable pub get_task : String → Tx Task
get_task id = do db ← get; or_throw (find (λ t. str_eq t.id id) db.tasks) task_not_found

-- `CountTasksByStatus`, at a status: a status with no row has no entry, which reads as zero.
unfoldable pub count_tasks_by_status : Db → TaskStatus → ℕ
unfolding same_status
count_tasks_by_status db status = count (λ t. same_status t.status status) db.tasks

-- `ListTasks`
unfoldable pub list_tasks : String → Db → List Task
list_tasks job_id db =
    order_by (λ t. t.created_at)
      (if str_eq job_id "" then db.tasks else select (λ t. str_eq t.job_id job_id) db.tasks)

-- `FROM tasks t JOIN jobs j ON j.id = t.job_id`, for one task.
unfoldable pub join_job : List Job → Task → Option TaskWithJob
join_job jobs t = elim (find (λ j. str_eq j.id t.job_id) jobs) [
  | none ↦ none
  | some j ↦ some (record {
    task = t;
    image = j.image;
    command = j.command;
    cpu_request_millicores = j.cpu_request_millicores;
    mem_request_mb = j.mem_request_mb;
    retry_limit = j.retry_limit;
    scheduling_policy = j.scheduling_policy;
    constraints = j.constraints;
  })
]

unfoldable pub join_jobs : List Job → List Task → List TaskWithJob
unfolding join_job
join_jobs jobs [] = []
join_jobs jobs (t ∷ ts) =
    let rest = join_jobs jobs ts in elim (join_job jobs t) [ none ↦ rest | some j ↦ j ∷ rest ]

-- `next_retry_at IS NULL OR next_retry_at <= now()`
unfoldable pub is_due : ℕ → Option ℕ → Bool
is_due now none = true
is_due now (some at) = leb at now

-- `WHERE t.status = 'pending' AND (…)`, and the row is not locked by another transaction.
unfoldable pub is_claimable : (String → Bool) → ℕ → Task → Bool
unfolding same_status is_due
is_claimable locked now t =
    same_status t.status pending
    && (is_due now t.next_retry_at && (if locked t.id then false else true))

-- `ClaimPendingTasksForScheduling`: `locked` says which rows SKIP LOCKED passes over.
unfoldable pub claim_pending_tasks_for_scheduling : (String → Bool) → ℕ → ℕ → Tx (List TaskWithJob)
unfolding is_claimable join_jobs
claim_pending_tasks_for_scheduling locked now limit = do
  db ← get
  let claimable = select (is_claimable locked now) db.tasks
  pure (take limit (join_jobs db.jobs (order_by (λ t. t.created_at) claimable)))

abbrev pub is_row : String → Task → Bool
is_row id t = str_eq t.id id

-- `UPDATE tasks SET … WHERE id = $1 RETURNING …`
unfoldable pub update_task : String → (Task → Task) → Tx Task
update_task id f = do
  modify (λ db. record db { tasks = update (is_row id) f db.tasks })
  db ← get
  or_throw (find (is_row id) db.tasks) task_not_found

-- `ScheduleTask`
unfoldable pub schedule_task : ℕ → String → String → ℕ → Tx (Unit {0})
unfolding same_status insert_event
schedule_task now task_id node_id epoch = do
  let chosen = λ (t : Task). is_row task_id t && same_status t.status pending
  db ← get
  modify (λ db. record db {
    tasks =
        update chosen
          (λ t. record t {
            status = scheduled;
            assigned_node_id = some node_id;
            assigned_epoch = some epoch;
            scheduled_at = some now;
          })
          db.tasks;
  })
  guard (count chosen db.tasks == 1) unexpected_row_count
  insert_event now task_entity task_id task_scheduled (
      text "task scheduled onto node "
      ∷ text node_id
      ∷ text " (epoch "
      ∷ number epoch
      ∷ text ")"
      ∷ [])

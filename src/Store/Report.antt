-- ===== src/Store/Report.antt =====
-- internal/store/jobs_tasks.go: `UpdateTaskStatus`, what it checks and the retries it schedules.
pub mod Outcome
pub mod Accepting
pub mod Fencing
pub mod Backoff
pub mod Progress
use arbiter_distributed_sche.Base.{
  Bool, List, Option, String, [], coalesce, false, holds_num, holds_text, if◌then◌else◌, ltb, none,
  not, some, str_eq, true, ℕ, ◌&&◌, ◌*◌, ◌+◌, ◌-◌, ◌^◌, ◌∷◌,
}
use arbiter_distributed_sche.Base.Int.{ltb_ℤ, pos, ℤ}
use arbiter_distributed_sche.Store.{
  Error, Part, Task, TaskStatus, Tx, cannot_transition, failed, guard, integer, number, pending,
  pure, running, same_status, scheduled, stale_task_report, succeeded, task_entity, task_failed,
  task_retry_scheduled, task_running, task_succeeded, text, throw, unsupported_status, ◌>>=◌, ◌>>◌,
}
use arbiter_distributed_sche.Store.Events.{insert_event}
use arbiter_distributed_sche.Store.Jobs.{get_job}
use arbiter_distributed_sche.Store.Tasks.{UpdateTaskStatusParams, get_task, update_task}

abbrev pub millisecond : ℕ
millisecond = 1_000_000

-- `retryBackoff`: the shift is `retriesUsed - 1`, held between 0 and 5. (`-` stops at 0, which is
-- the test `shift < 0`.)
unfoldable pub retry_backoff : ℕ → ℕ
retry_backoff retries_used =
    let shift = retries_used - 1 in
    let shift' = if ltb 5 shift then 5 else shift in 500 * 2 ^ shift' * millisecond

-- `checkTaskReportFence`
unfoldable pub check_task_report_fence : Task → String → ℕ → Option Error
check_task_report_fence task node_id epoch =
    if str_eq node_id ""
    then none
    else if not (holds_text task.assigned_node_id node_id)
    then some stale_task_report
    else if not (holds_num task.assigned_epoch epoch)
    then some stale_task_report
    else none

-- What the requeueing UPDATE writes; `retries` comes from the row as it was read.
unfoldable pub requeued : ℕ → ℕ → Option ℤ → Option String → Task → Task
requeued now retries exit_code last_error t = record t {
  status = pending;
  retries_used = retries;
  exit_code = exit_code;
  last_error = last_error;
  assigned_node_id = none;
  assigned_epoch = none;
  scheduled_at = none;
  started_at = none;
  finished_at = none;
  next_retry_at = some (now + retry_backoff retries);
}

-- `requeueFailedTask`
unfoldable pub requeue_failed_task : ℕ → Task → Option ℤ → Option String → Tx Task
requeue_failed_task now task exit_code last_error = do
  let retries = task.retries_used + 1
  updated ← update_task task.id (requeued now retries exit_code last_error)
  insert_event now task_entity task.id task_retry_scheduled (
      text "task failed; retry "
      ∷ number retries
      ∷ text " scheduled after "
      ∷ number (retry_backoff retries)
      ∷ [])
  pure updated

-- What the UPDATE of the `running` branch writes.
unfoldable pub marked_running : ℕ → Task → Task
marked_running now t = record t {
  status = running;
  started_at = some (coalesce t.started_at now);
  next_retry_at = none;
}

-- What the UPDATE of the terminal branch writes.
unfoldable pub marked_terminal : ℕ → TaskStatus → Option ℤ → Option String → Task → Task
marked_terminal now status exit_code last_error t = record t {
  status = status;
  exit_code = exit_code;
  last_error = last_error;
  finished_at = some now;
  started_at = some (coalesce t.started_at now);
  next_retry_at = none;
}

-- `task.Status != scheduled && task.Status != running` lets no report through.
unfoldable pub is_live : TaskStatus → Bool
is_live scheduled = true
is_live running = true
is_live _ = false

unfoldable pub is_terminal_report : TaskStatus → Bool
is_terminal_report succeeded = true
is_terminal_report failed = true
is_terminal_report _ = false

abbrev terminal_event : TaskStatus → Tx (Unit {0}) → Tx (Unit {0}) → Tx (Unit {0})
terminal_event failed a b = a
terminal_event _ a b = b

abbrev exit_code_parts : Option ℤ → List Part
exit_code_parts none = []
exit_code_parts (some code) = text " (exit_code=" ∷ integer code ∷ text ")" ∷ []

-- The branch `case TaskStatusRunning`.
unfoldable pub report_running : ℕ → UpdateTaskStatusParams → Task → Tx Task
report_running now params task = do
  guard (is_live task.status) cannot_transition
  updated ← update_task params.task_id (marked_running now)
  if same_status task.status scheduled
      then insert_event now task_entity params.task_id task_running
          (text "task container started" ∷ [])
      else pure tt
  pure updated

-- The end of the branch `case TaskStatusSucceeded, TaskStatusFailed`.
unfoldable pub finish_task : ℕ → UpdateTaskStatusParams → Option String → Tx Task
finish_task now params last_error = do
  updated ←
      update_task params.task_id (marked_terminal now params.status params.exit_code last_error)
  let message = exit_code_parts params.exit_code
  terminal_event params.status
      (insert_event now task_entity params.task_id task_failed (text "task failed" ∷ message))
      (insert_event now task_entity params.task_id task_succeeded (text "task succeeded" ∷ message))
  pure updated

-- `if params.Error != "" { lastError = &params.Error }`
unfoldable pub last_error_of : String → Option String
last_error_of e = if str_eq e "" then none else some e

-- The test on the job's retry limit, for a failed task.
unfoldable pub fail_or_retry : ℕ → UpdateTaskStatusParams → Task → Option String → Tx Task
fail_or_retry now params task last_error = do
  job ← get_job task.job_id
  if ltb_ℤ (pos task.retries_used) job.retry_limit
      then requeue_failed_task now task params.exit_code last_error
      else finish_task now params last_error

-- The branch `case TaskStatusSucceeded, TaskStatusFailed`.
unfoldable pub report_terminal : ℕ → UpdateTaskStatusParams → Task → Tx Task
report_terminal now params task = do
  guard (is_live task.status) cannot_transition
  let last_error = last_error_of params.error
  if same_status params.status failed
      then fail_or_retry now params task last_error
      else finish_task now params last_error

-- The `switch params.Status`.
unfoldable pub dispatch_report : TaskStatus → ℕ → UpdateTaskStatusParams → Task → Tx Task
dispatch_report running now params task = report_running now params task
dispatch_report succeeded now params task = report_terminal now params task
dispatch_report failed now params task = report_terminal now params task
dispatch_report _ now params task = throw unsupported_status

abbrev check : Option Error → Tx (Unit {0})
check none = pure tt
check (some e) = throw e

-- `UpdateTaskStatus`
unfoldable pub update_task_status : ℕ → UpdateTaskStatusParams → Tx Task
update_task_status now params = do
  task ← get_task params.task_id
  check (check_task_report_fence task params.node_id params.epoch)
  if is_terminal_report params.status && same_status task.status params.status
      then pure task
      else dispatch_report params.status now params task

-- Opens all of `UpdateTaskStatus`, for runs on concrete tables.
unfoldable pub update_task_status_run : Unit {0}
unfolding update_task_status dispatch_report report_terminal fail_or_retry report_running
    finish_task requeue_failed_task requeued marked_running marked_terminal is_live
    is_terminal_report last_error_of retry_backoff check_task_report_fence same_status insert_event
    update_task get_task get_job
update_task_status_run = tt

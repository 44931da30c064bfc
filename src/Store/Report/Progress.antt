-- ===== src/Store/Report/Progress.antt =====
-- internal/store/jobs_tasks.go: the reports that `UpdateTaskStatus` accepts.
use arbiter_distributed_sche.Base.{
  All-find, Bool, Bool-cases, Option, String, arith, false, find, find-holds, inl, inr, none, refl,
  some, str_eq→eq, subst, sym, true, ℕ, ◌&&◌, ◌+◌, ◌≡◌,
}
use arbiter_distributed_sche.Base.Int.{ltb_ℤ, pos, ℤ}
use arbiter_distributed_sche.Store.{
  Db, Job, Task, TaskStatus, failed, ok, running, same_status, succeeded,
}
use arbiter_distributed_sche.Store.Events.{insert_event}
use arbiter_distributed_sche.Store.Jobs.{get_job}
use arbiter_distributed_sche.Store.Report.{
  check_task_report_fence, dispatch_report, fail_or_retry, finish_task, is_live, is_terminal_report,
  last_error_of, marked_running, marked_terminal, report_running, report_terminal,
  requeue_failed_task, requeued, update_task_status,
}
use arbiter_distributed_sche.Store.Report.Accepting.{update_task_status-Accepted}
use arbiter_distributed_sche.Store.Report.Outcome.{Accepted, update_task_lem}
use arbiter_distributed_sche.Store.Success.{Succeeds, result_of}
use arbiter_distributed_sche.Store.Tasks.{UpdateTaskStatusParams, get_task, is_row}
use arbiter_distributed_sche.Store.Valid.{IsRow, IsValid, is_job}

-- The statuses that a report may carry.
unfoldable pub is_report_status : TaskStatus → Bool
is_report_status running = true
is_report_status succeeded = true
is_report_status failed = true
is_report_status _ = false

module _ (now : ℕ) (p : UpdateTaskStatusParams) (t : Task) (db : Db)
    (found : find (is_row p.task_id) db.tasks ≡ some t) (live : is_live t.status ≡ true) where
  report_running-Succeeds : Succeeds (report_running now p t db)
  unfolding report_running insert_event marked_running
  report_running-Succeeds =
      simp (live, update_task_lem p.task_id (marked_running now) db {t = t} refl found)
        (ground arith)

  finish_task-Succeeds : (last_error : Option String) → Succeeds (finish_task now p last_error db)
  unfolding finish_task insert_event marked_terminal
  finish_task-Succeeds last_error =
      simp
        (update_task_lem p.task_id (marked_terminal now p.status p.exit_code last_error) db {t = t}
          refl found)
        (ground arith)

  requeue_failed_task-Succeeds :
      (exit_code : Option ℤ) (last_error : Option String)
      → Succeeds (requeue_failed_task now t exit_code last_error db)
  unfolding requeue_failed_task insert_event requeued
  requeue_failed_task-Succeeds exit_code last_error =
      simp
        (update_task_lem t.id (requeued now (t.retries_used + 1) exit_code last_error) db {t = t}
          refl own)
        (ground arith)
    where
      own : find (is_row t.id) db.tasks ≡ some t
      own =
          subst (λ id. find (is_row id) db.tasks ≡ some t)
            (sym (str_eq→eq t.id p.task_id (find-holds (is_row p.task_id) db.tasks found))) found

  module _ (j : Job) (known : find (is_job t.job_id) db.jobs ≡ some j) where
    fail_or_retry-Succeeds :
        (last_error : Option String) → Succeeds (fail_or_retry now p t last_error db)
    unfolding fail_or_retry get_job
    fail_or_retry-Succeeds last_error =
        elim (Bool-cases (ltb_ℤ (pos t.retries_used) j.retry_limit)) [
          | inl below ↦ simp (known, below) (requeue_failed_task-Succeeds p.exit_code last_error)
          | inr spent ↦ simp (known, spent) (finish_task-Succeeds last_error)
        ]

    report_terminal-Succeeds : Succeeds (report_terminal now p t db)
    unfolding report_terminal
    report_terminal-Succeeds = elim (Bool-cases (same_status p.status failed)) [
      | inl failing ↦ simp (live, failing) (fail_or_retry-Succeeds (last_error_of p.error))
      | inr fine ↦ simp (live, fine) (finish_task-Succeeds (last_error_of p.error))
    ]

    dispatch_report-Succeeds :
        (s : TaskStatus) → is_report_status s ≡ true → Succeeds (dispatch_report s now p t db)
    unfolding dispatch_report is_report_status
    dispatch_report-Succeeds running e = report_running-Succeeds
    dispatch_report-Succeeds succeeded e = report_terminal-Succeeds
    dispatch_report-Succeeds failed e = report_terminal-Succeeds
    dispatch_report-Succeeds _ e = cc

-- In valid tables, every report of `running`, `succeeded` or `failed` about a live task that passes
-- the fence is accepted: it commits one of the changes of `Change` to that row.
pub live_report_commits :
    (now : ℕ) (p : UpdateTaskStatusParams) (t : Task) (db : Db)
    → IsValid db
    → find (is_row p.task_id) db.tasks ≡ some t
    → is_live t.status ≡ true
    → check_task_report_fence t p.node_id p.epoch ≡ none
    → is_report_status p.status ≡ true
    → (t' : Task) × ((db' : Db) × (update_task_status now p db ≡ ok (t', db'))
        × Accepted now p db t' db')
unfolding update_task_status get_task is_live is_terminal_report same_status
live_report_commits now p t db v found live fence known =
    let row = All-find (IsRow db.nodes db.jobs) (is_row p.task_id) db.tasks v.rows found in
    let (j, at, _) = row.job in
    let (t', (db', runs)) = result_of (update_task_status now p db) (
      simp (found, fence, fresh)
        (dispatch_report-Succeeds now p t db found live j at p.status known)) in
    (t', (db', runs, update_task_status-Accepted now p db runs))
  where
    fresh : (is_terminal_report p.status && same_status t.status p.status) ≡ false
    fresh = ground (arith, live)

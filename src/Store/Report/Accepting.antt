-- ===== src/Store/Report/Accepting.antt =====
-- internal/store/jobs_tasks.go: what a status report that is accepted does to the tables.
use arbiter_distributed_sche.Base.{
  &&-true, Bool-cases, Option-cases, false, find, find-holds, inl, inr, none, refl, some, str_eq,
  str_eq→eq, subst, sym, true, update, update_id, ℕ, ◌&&◌, ◌+◌, ◌≡◌,
}
use arbiter_distributed_sche.Base.Int.{ltb_ℤ, pos}
use arbiter_distributed_sche.Store.{
  Db, Ensures, Ensures-map, Ensures-ok, Task, TaskStatus, failed, ok, running, same_status,
  succeeded,
}
use arbiter_distributed_sche.Store.Jobs.{get_job}
use arbiter_distributed_sche.Store.Report.{
  check_task_report_fence, dispatch_report, fail_or_retry, finish_task, is_live, is_terminal_report,
  last_error_of, marked_running, marked_terminal, report_running, report_terminal,
  requeue_failed_task, requeued, update_task_status,
}
use arbiter_distributed_sche.Store.Report.Outcome.{
  Accepted, Change, Keeps, fails, finish_task-Ensures, repeated, report_running-Ensures,
  requeue_failed_task-Ensures, requeues, started, succeeds,
}
use arbiter_distributed_sche.Store.Tasks.{UpdateTaskStatusParams, get_task, is_row}

not_failed : (s : TaskStatus) → s ≡ succeeded → same_status s failed ≡ false
unfolding same_status
not_failed s e = rw e

is_failed : (s : TaskStatus) → s ≡ failed → same_status s failed ≡ true
unfolding same_status
is_failed s e = rw e

module _ (now : ℕ) (p : UpdateTaskStatusParams) (db : Db) (t : Task)
    (found : find (is_row p.task_id) db.tasks ≡ some t)
    (fence : check_task_report_fence t p.node_id p.epoch ≡ none) where
  accept :
      (f : Task → Task) (t' : Task) (db' : Db)
      → Change now p db.jobs t f
      → (t' ≡ f t) × (db'.tasks ≡ update (is_row p.task_id) f db.tasks) × Keeps db db'
      → Accepted now p db t' db'
  accept f t' db' change (result, tasks, keeps) = record {
    t = t;
    f = f;
    found = found;
    fence = fence;
    change = change;
    result = result;
    tasks = tasks;
    keeps = keeps;
  }

  running-Accepted : p.status ≡ running → Ensures (Accepted now p db) (report_running now p t db)
  running-Accepted e =
      Ensures-map _ _ (report_running now p t db)
        (λ t' db' h. accept (marked_running now) t' db' (started e h.0) (h.1, h.2, h.3))
        (report_running-Ensures now p t db found)

  finish-Accepted :
      Change now p db.jobs t (marked_terminal now p.status p.exit_code (last_error_of p.error))
      → Ensures (Accepted now p db) (finish_task now p (last_error_of p.error) db)
  finish-Accepted change =
      Ensures-map _ _ (finish_task now p (last_error_of p.error) db)
        (λ t' db' h. accept _ t' db' change h)
        (finish_task-Ensures now p (last_error_of p.error) t db found)

  requeue-Accepted :
      Change now p db.jobs t (requeued now (t.retries_used + 1) p.exit_code (last_error_of p.error))
      → Ensures
          (Accepted now p db)
          (requeue_failed_task now t p.exit_code (last_error_of p.error) db)
  requeue-Accepted change =
      let same : t.id ≡ p.task_id =
        str_eq→eq t.id p.task_id (find-holds (is_row p.task_id) db.tasks found) in
      Ensures-map _ _ (requeue_failed_task now t p.exit_code (last_error_of p.error) db)
        (λ t' db' h. accept _ t' db' change (
          subst
            (λ id.
              (t' ≡ requeued now (t.retries_used + 1) p.exit_code (last_error_of p.error) t)
              × (db'.tasks
                  ≡ update (is_row id)
                      (requeued now (t.retries_used + 1) p.exit_code (last_error_of p.error))
                      db.tasks)
              × Keeps db db')
            same h))
        (requeue_failed_task-Ensures now t p.exit_code (last_error_of p.error) db
          (subst (λ id. find (is_row id) db.tasks ≡ some t) (sym same) found))

  succeeded-Accepted :
      p.status ≡ succeeded → Ensures (Accepted now p db) (report_terminal now p t db)
  unfolding report_terminal
  succeeded-Accepted e = elim (Bool-cases (is_live t.status)) [
    | inl live ↦ simp (live, test) (finish-Accepted (succeeds e live))
    | inr idle ↦ simp idle tt
  ]
    where
      test : same_status p.status failed ≡ false
      test = not_failed p.status e

  fail_or_retry-Accepted :
      p.status ≡ failed
      → is_live t.status ≡ true
      → Ensures (Accepted now p db) (fail_or_retry now p t (last_error_of p.error) db)
  unfolding fail_or_retry get_job
  fail_or_retry-Accepted e live = elim (Option-cases (find (λ j. str_eq j.id t.job_id) db.jobs)) [
    | inl missing ↦ simp missing tt
    | inr (j, known) ↦ elim (Bool-cases (ltb_ℤ (pos t.retries_used) j.retry_limit)) [
      | inl below ↦ simp (known, below) (requeue-Accepted (requeues j e live known below))
      | inr spent ↦ simp (known, spent) (finish-Accepted (fails j e live known spent))
    ]
  ]

  failed-Accepted : p.status ≡ failed → Ensures (Accepted now p db) (report_terminal now p t db)
  unfolding report_terminal
  failed-Accepted e = elim (Bool-cases (is_live t.status)) [
    | inl live ↦ simp (live, is_failed p.status e) (fail_or_retry-Accepted e live)
    | inr idle ↦ simp idle tt
  ]

  dispatch-Accepted :
      (s : TaskStatus) → p.status ≡ s → Ensures (Accepted now p db) (dispatch_report s now p t db)
  unfolding dispatch_report
  dispatch-Accepted running e = running-Accepted e
  dispatch-Accepted succeeded e = succeeded-Accepted e
  dispatch-Accepted failed e = failed-Accepted e
  dispatch-Accepted _ e = tt

pub update_task_status-Ensures :
    (now : ℕ) (p : UpdateTaskStatusParams) (db : Db)
    → Ensures (Accepted now p db) (update_task_status now p db)
unfolding update_task_status get_task
update_task_status-Ensures now p db = elim (Option-cases (find (is_row p.task_id) db.tasks)) [
  | inl missing ↦ simp missing tt
  | inr (t, found) ↦ elim (Option-cases (check_task_report_fence t p.node_id p.epoch)) [
    | inr (e, stale) ↦ simp (found, stale) tt
    | inl fence ↦ elim (Bool-cases (is_terminal_report p.status && same_status t.status p.status)) [
      | inl again ↦
          simp (found, fence, again)
            (accept now p db t found fence (λ x. x) t db
              (repeated (&&-true _ _ again).0 (&&-true _ _ again).1)
              (refl, sym (update_id (is_row p.task_id) db.tasks), keeps_all))
      | inr fresh ↦
          simp (found, fence, fresh) (dispatch-Accepted now p db t found fence p.status refl)
    ]
  ]
]
  where
    keeps_all : Keeps db db
    keeps_all = record { nodes = refl; jobs = refl; lease = refl }

-- A report that is accepted found its task, passed the fence and wrote one of the changes of
-- `Change` into that row; no other table but the events is touched.
pub update_task_status-Accepted :
    (now : ℕ) (p : UpdateTaskStatusParams) (db : Db) {t' : Task} {db' : Db}
    → update_task_status now p db ≡ ok (t', db')
    → Accepted now p db t' db'
update_task_status-Accepted now p db e =
    Ensures-ok (Accepted now p db) (update_task_status-Ensures now p db) e

-- ===== src/Store/Report/Outcome.antt =====
-- internal/store/jobs_tasks.go: the changes that a status report makes to its row.
use arbiter_distributed_sche.Base.{
  List, Option, String, arith, false, find, none, refl, some, str_eq, true, update, ℕ, ◌+◌, ◌≡◌,
}
use arbiter_distributed_sche.Base.Int.{ltb_ℤ, pos, ℤ}
use arbiter_distributed_sche.Base.Keys.{find-update_self}
use arbiter_distributed_sche.Store.{
  Db, Ensures, Job, Task, failed, ok, running, same_status, succeeded,
}
use arbiter_distributed_sche.Store.Events.{insert_event}
use arbiter_distributed_sche.Store.Report.{
  check_task_report_fence, finish_task, is_live, is_terminal_report, last_error_of, marked_running,
  marked_terminal, report_running, requeue_failed_task, requeued,
}
use arbiter_distributed_sche.Store.Tasks.{UpdateTaskStatusParams, is_row, update_task}

pub update_task_lem :
    (id : String) (f : Task → Task) (db : Db) {t : Task}
    → (f t).id ≡ t.id
    → find (is_row id) db.tasks ≡ some t
    → update_task id f db ≡ ok (f t, record db { tasks = update (is_row id) f db.tasks })
unfolding update_task
update_task_lem id f db same e = rw (find-update_self (λ t. t.id) id f db.tasks same e)

-- Only the tasks and the events of `db'` may differ from `db`.
pub record Keeps (db db' : Db) : Type 0 where
  pub nodes : db'.nodes ≡ db.nodes
  pub jobs : db'.jobs ≡ db.jobs
  pub lease : db'.lease ≡ db.lease

pub report_running-Ensures :
    (now : ℕ) (p : UpdateTaskStatusParams) (t : Task) (db : Db)
    → find (is_row p.task_id) db.tasks ≡ some t
    → Ensures
        (λ t' db'.
          (is_live t.status ≡ true)
          × (t' ≡ marked_running now t)
          × (db'.tasks ≡ update (is_row p.task_id) (marked_running now) db.tasks)
          × Keeps db db')
        (report_running now p t db)
unfolding report_running insert_event marked_running is_live same_status
report_running-Ensures now p t db e =
    ground (arith, update_task_lem p.task_id (marked_running now) db {t = t} refl e)

pub finish_task-Ensures :
    (now : ℕ) (p : UpdateTaskStatusParams) (last_error : Option String) (t : Task) (db : Db)
    → find (is_row p.task_id) db.tasks ≡ some t
    → let f = marked_terminal now p.status p.exit_code last_error in
      Ensures
        (λ t' db'. (t' ≡ f t) × (db'.tasks ≡ update (is_row p.task_id) f db.tasks) × Keeps db db')
        (finish_task now p last_error db)
unfolding finish_task insert_event marked_terminal
finish_task-Ensures now p last_error t db e = ground (
  arith,
  update_task_lem p.task_id (marked_terminal now p.status p.exit_code last_error) db {t = t} refl e,
)

pub requeue_failed_task-Ensures :
    (now : ℕ) (t : Task) (exit_code : Option ℤ) (last_error : Option String) (db : Db)
    → find (is_row t.id) db.tasks ≡ some t
    → let f = requeued now (t.retries_used + 1) exit_code last_error in
      Ensures
        (λ t' db'. (t' ≡ f t) × (db'.tasks ≡ update (is_row t.id) f db.tasks) × Keeps db db')
        (requeue_failed_task now t exit_code last_error db)
unfolding requeue_failed_task insert_event requeued
requeue_failed_task-Ensures now t exit_code last_error db e = ground (
  arith,
  update_task_lem t.id (requeued now (t.retries_used + 1) exit_code last_error) db {t = t} refl e,
)

-- What an accepted report `p` about the task `t` writes into its row, and when.
pub data Change (now : ℕ) (p : UpdateTaskStatusParams) (jobs : List Job) (t : Task)
    : (Task → Task) → Type 0 where
  -- A repeated report of a terminal status.
  repeated :
      is_terminal_report p.status ≡ true
      → same_status t.status p.status ≡ true
      → Change now p jobs t (λ x. x)
  started : p.status ≡ running → is_live t.status ≡ true → Change now p jobs t (marked_running now)
  succeeds :
      p.status ≡ succeeded
      → is_live t.status ≡ true
      → Change now p jobs t (marked_terminal now p.status p.exit_code (last_error_of p.error))
  -- The retries of the job are used up.
  fails :
      (j : Job)
      → p.status ≡ failed
      → is_live t.status ≡ true
      → find (λ j. str_eq j.id t.job_id) jobs ≡ some j
      → ltb_ℤ (pos t.retries_used) j.retry_limit ≡ false
      → Change now p jobs t (marked_terminal now p.status p.exit_code (last_error_of p.error))
  requeues :
      (j : Job)
      → p.status ≡ failed
      → is_live t.status ≡ true
      → find (λ j. str_eq j.id t.job_id) jobs ≡ some j
      → ltb_ℤ (pos t.retries_used) j.retry_limit ≡ true
      → Change now p jobs t (requeued now (t.retries_used + 1) p.exit_code (last_error_of p.error))

pub Change-same_id :
    (now : ℕ) (p : UpdateTaskStatusParams) (jobs : List Job) (t : Task) (f : Task → Task)
    → Change now p jobs t f
    → (u : Task) → (f u).id ≡ u.id
unfolding marked_running marked_terminal requeued
Change-same_id now p jobs t f (repeated _ _) u = refl
Change-same_id now p jobs t f (started _ _) u = refl
Change-same_id now p jobs t f (succeeds _ _) u = refl
Change-same_id now p jobs t f (fails _ _ _ _ _) u = refl
Change-same_id now p jobs t f (requeues _ _ _ _ _) u = refl

-- The report `p` was accepted: `t` is the row that it found, and `f` is what it wrote.
pub record Accepted (now : ℕ) (p : UpdateTaskStatusParams) (db : Db) (t' : Task) (db' : Db)
    : Type 0 where
  pub t : Task
  pub f : Task → Task
  pub found : find (is_row p.task_id) db.tasks ≡ some t
  pub fence : check_task_report_fence t p.node_id p.epoch ≡ none
  pub change : Change now p db.jobs t f
  pub result : t' ≡ f t
  pub tasks : db'.tasks ≡ update (is_row p.task_id) f db.tasks
  pub keeps : Keeps db db'

-- ===== src/Store/Report/Fencing.antt =====
-- internal/store/jobs_tasks.go and nodes.go: what the fence keeps out.
use arbiter_distributed_sche.Base.{
  All-find, Bool-cases, Option-cases, String, arith, eq_iff, eq_refl, false, find, holds_num→eq,
  holds_text→eq, if◌then◌else◌, inl, inr, ne→str_eq, none, refl, some, update-All, ℕ, ◌&&◌, ◌≡◌,
  ◌≢◌,
}
use arbiter_distributed_sche.Store.{
  Db, Task, TaskStatus, committed, err, failed, running, same_status, stale_task_report, succeeded,
}
use arbiter_distributed_sche.Store.Allocation.{consumes, is_on}
use arbiter_distributed_sche.Store.Nodes.{MarkNodeDeadResult, orphan_requeued}
use arbiter_distributed_sche.Store.Report.{
  check_task_report_fence, dispatch_report, is_live, is_terminal_report, report_running,
  report_terminal, update_task_status,
}
use arbiter_distributed_sche.Store.Tasks.{UpdateTaskStatusParams, get_task, is_row}
use arbiter_distributed_sche.Store.Valid.Dying.{Died}

idle_running :
    (now : ℕ) (p : UpdateTaskStatusParams) (t : Task) (db : Db)
    → is_live t.status ≡ false
    → committed db (report_running now p t db) ≡ db
unfolding report_running
idle_running now p t db e = rw e

idle_terminal :
    (now : ℕ) (p : UpdateTaskStatusParams) (t : Task) (db : Db)
    → is_live t.status ≡ false
    → committed db (report_terminal now p t db) ≡ db
unfolding report_terminal
idle_terminal now p t db e = rw e

idle_dispatch :
    (s : TaskStatus) (now : ℕ) (p : UpdateTaskStatusParams) (t : Task) (db : Db)
    → is_live t.status ≡ false
    → committed db (dispatch_report s now p t db) ≡ db
unfolding dispatch_report
idle_dispatch running now p t db e = idle_running now p t db e
idle_dispatch succeeded now p t db e = idle_terminal now p t db e
idle_dispatch failed now p t db e = idle_terminal now p t db e
idle_dispatch _ now p t db e = refl

-- Without a live row under the id a report changes nothing, whatever it says.
pub idle_report :
    (now : ℕ) (p : UpdateTaskStatusParams) (db : Db)
    → ((t : Task)
        → find (is_row p.task_id) db.tasks ≡ some t
        → check_task_report_fence t p.node_id p.epoch ≡ none
        → is_live t.status ≡ false)
    → committed db (update_task_status now p db) ≡ db
unfolding update_task_status get_task
idle_report now p db idle = elim (Option-cases (find (is_row p.task_id) db.tasks)) [
  | inl missing ↦ simp missing refl
  | inr (t, found) ↦ elim (Option-cases (check_task_report_fence t p.node_id p.epoch)) [
    | inr (e, stale) ↦ simp (found, stale) refl
    | inl fence ↦ elim (Bool-cases (is_terminal_report p.status && same_status t.status p.status)) [
      | inl again ↦ simp (found, fence, again) refl
      | inr fresh ↦
          simp (found, fence, fresh) (idle_dispatch p.status now p t db (idle t found fence))
    ]
  ]
]

-- What the fence lets through under a node's name.
pub fence_passed :
    (t : Task) (node_id : String) (epoch : ℕ)
    → node_id ≢ ""
    → check_task_report_fence t node_id epoch ≡ none
    → (t.assigned_node_id ≡ some node_id) × (t.assigned_epoch ≡ some epoch)
unfolding check_task_report_fence
fence_passed t node_id epoch named e = (
  holds_text→eq t.assigned_node_id node_id (ground (arith, eq_iff node_id "")),
  holds_num→eq t.assigned_epoch epoch (ground (arith, eq_iff node_id "")),
)

-- A row that passes `is_on` is live, and a live row of the node passes.
pub live-is_on :
    (t : Task) (node_id : String)
    → t.assigned_node_id ≡ some node_id
    → is_on node_id t ≡ is_live t.status
unfolding is_on is_live consumes
live-is_on t node_id e = rw e (ground (arith, eq_refl node_id))

pub orphaned-not_on : (id node_id : String) (t : Task) → is_on id (orphan_requeued t) ≡ false
unfolding is_on orphan_requeued
orphaned-not_on id node_id t = refl

-- After its death no task is on the node.
pub Died-not_on :
    {node_id : String} {db db' : Db} {r : MarkNodeDeadResult}
    → Died node_id db r db'
    → (t : Task) (id : String) → find (is_row id) db'.tasks ≡ some t
    → is_on node_id t ≡ false
Died-not_on {node_id} {db} {db'} d t id e =
    All-find (λ u. is_on node_id u ≡ false) (is_row id) db'.tasks
      (rw d.tasks
        (update-All (λ u. is_on node_id u ≡ false) (is_on node_id) orphan_requeued db.tasks off))
      e
  where
    off : (u : Task) → is_on node_id (if is_on node_id u then orphan_requeued u else u) ≡ false
    off u = elim (Bool-cases (is_on node_id u)) [
      | inl hit ↦ rw hit (orphaned-not_on node_id node_id u)
      | inr miss ↦ rw miss miss
    ]

-- The fence stops every named report about an unassigned task.
pub unassigned-stale :
    (t : Task) (node_id : String) (epoch : ℕ)
    → node_id ≢ ""
    → t.assigned_node_id ≡ none
    → check_task_report_fence t node_id epoch ≡ some stale_task_report
unfolding check_task_report_fence
unassigned-stale t node_id epoch named e = rw (ne→str_eq node_id "" named, e)

pub stale_report :
    (now : ℕ) (p : UpdateTaskStatusParams) (db : Db) (t : Task)
    → find (is_row p.task_id) db.tasks ≡ some t
    → check_task_report_fence t p.node_id p.epoch ≡ some stale_task_report
    → update_task_status now p db ≡ err stale_task_report
unfolding update_task_status get_task
stale_report now p db t found stale = simp (found, stale)

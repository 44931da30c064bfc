-- ===== src/Store/Counted.antt =====
-- internal/store: a task that waits for a retry, over the transactions that follow.
use arbiter_distributed_sche.Base.{
  &&-true, All-find, Bool, List, String, ap, arith, false, find, find-holds, holds_text,
  if◌then◌else◌, none, refl, some, str_eq→eq, subst, sym, true, true≢false, update, ℕ, ◌&&◌, ◌∙◌,
  ◌≡◌, ◌≢◌,
}
use arbiter_distributed_sche.Base.Batch.{find-update}
use arbiter_distributed_sche.Base.Int.{pos_part}
use arbiter_distributed_sche.Base.Keys.{find-append_some, find-update_self}
use arbiter_distributed_sche.Store.{
  Db, Ensures-ok, Job, Task, TaskStatus, err, ok, pending, stale_task_report,
}
use arbiter_distributed_sche.Store.Allocation.{consumes, is_on}
use arbiter_distributed_sche.Store.History.{
  Reach, Reach-IsSound, Step, changes, creates, dies, here, leads, logs, next, registers, reports,
  schedules,
}
use arbiter_distributed_sche.Store.Lease.Terms.{try_acquire_or_renew_lease-Ensures}
use arbiter_distributed_sche.Store.Lifecycle.{Accepted-reported}
use arbiter_distributed_sche.Store.Nodes.{orphan_requeued}
use arbiter_distributed_sche.Store.Refinement.{
  Attempt-keeps, log-KeepsTasks, register-KeepsTasks, status-KeepsTasks,
}
use arbiter_distributed_sche.Store.Report.{is_live, update_task_status}
use arbiter_distributed_sche.Store.Report.Accepting.{update_task_status-Accepted}
use arbiter_distributed_sche.Store.Report.Fencing.{stale_report, unassigned-stale}
use arbiter_distributed_sche.Store.Report.Outcome.{
  Accepted, Change, Change-same_id, fails, repeated, requeues, started, succeeds,
}
use arbiter_distributed_sche.Store.Tasks.{UpdateTaskStatusParams, is_row}
use arbiter_distributed_sche.Store.Valid.{FitsStatus, IsRow, IsValid}
use arbiter_distributed_sche.Store.Valid.Creating.{Created, create_job-Ensures, new_tasks}
use arbiter_distributed_sche.Store.Valid.Dying.{Died, mark_node_dead-Ensures}
use arbiter_distributed_sche.Store.Valid.Scheduling.{
  Scheduled, assigned_to, chosen, schedule_task-Ensures,
}

-- The transaction does not place the task.
abbrev pub Passes : String → {db db' : Db} → Step db db' → Type 0
Passes id (schedules now task_id node_id epoch m known le e) = id ≢ task_id
Passes id _ = Unit {0}

-- No transaction of the history places the task.
abbrev pub PassesAll : String → {db db' : Db} → Reach db db' → Type 0
PassesAll id here = Unit {0}
PassesAll id (next r s) = PassesAll id r × Passes id s

-- The task has a row, which is pending.
abbrev Waits : String → List Task → Type 0
Waits id tasks = (t : Task) × (find (is_row id) tasks ≡ some t) × (t.status ≡ pending)

same-Waits :
    (id : String) {tasks tasks' : List Task} → tasks' ≡ tasks → Waits id tasks → Waits id tasks'
same-Waits id e w = subst (Waits id) (sym e) w

update-Waits :
    (id : String) (p : Task → Bool) (f : Task → Task) (tasks : List Task)
    → ((t : Task) → (f t).id ≡ t.id)
    → ((t : Task)
        → find (is_row id) tasks ≡ some t
        → p t ≡ true
        → t.status ≡ pending
        → (f t).status ≡ pending)
    → Waits id tasks
    → Waits id (update p f tasks)
update-Waits id p f tasks same step (t, found, waits) =
    (if p t then f t else t, find-update (λ m. m.id) id p f tasks same found, go (p t) refl)
  where
    go : (b : Bool) → p t ≡ b → (if b then f t else t).status ≡ pending
    go true h = step t found h waits
    go false h = waits

pending_is_idle : (s : TaskStatus) → s ≡ pending → is_live s ≡ false
unfolding is_live
pending_is_idle s e = ap is_live e

pending_is_off : (n : String) (t : Task) → t.status ≡ pending → is_on n t ≡ false
unfolding is_on consumes
pending_is_off n t e =
    ap (λ s. holds_text t.assigned_node_id n && consumes s) e
    ∙ and_false (holds_text t.assigned_node_id n)
  where
    and_false : (b : Bool) → (b && false) ≡ false
    and_false b = ground arith

-- An accepted report leaves a pending task.
Change-pending :
    (now : ℕ) (p : UpdateTaskStatusParams) (jobs : List Job) (t : Task) (f : Task → Task)
    → Change now p jobs t f
    → t.status ≡ pending
    → (f t).status ≡ pending
Change-pending now p jobs t f (repeated _ _) h = h
Change-pending now p jobs t f (started _ live) h =
    absurd (true≢false (sym live ∙ pending_is_idle t.status h))
Change-pending now p jobs t f (succeeds s live) h =
    absurd (true≢false (sym live ∙ pending_is_idle t.status h))
Change-pending now p jobs t f (fails _ s live _ _) h =
    absurd (true≢false (sym live ∙ pending_is_idle t.status h))
Change-pending now p jobs t f (requeues _ _ live _ _) h =
    absurd (true≢false (sym live ∙ pending_is_idle t.status h))

Accepted-Waits :
    (id : String) (now : ℕ) (p : UpdateTaskStatusParams) {db db' : Db} {t' : Task}
    → Accepted now p db t' db'
    → Waits id db.tasks
    → Waits id db'.tasks
Accepted-Waits id now p {db} {db'} a w = same-Waits id a.tasks (
    update-Waits id (is_row p.task_id) a.f db.tasks (Change-same_id now p db.jobs a.t a.f a.change)
      (λ t e h o.
        let same : a.t ≡ t = sym (Accepted-reported now p a id t e h) in
        subst (λ u. (a.f u).status ≡ pending) same
          (Change-pending now p db.jobs a.t a.f a.change
            (subst (λ u. u.status ≡ pending) (sym same) o)))
      w)

Step-Waits :
    (id : String) {db db' : Db} (s : Step db db')
    → IsValid db
    → Passes id s
    → Waits id db.tasks
    → Waits id db'.tasks
unfolding orphan_requeued
Step-Waits id {db} {db'} (creates job_id ids now params job unused fresh e) v passes
      (t, found, waits) =
    let c =
      Ensures-ok (Created job_id ids now params db) (create_job-Ensures job_id ids now params db)
        e in
    let added = new_tasks (pos_part params.replicas) 0 ids job_id now in
    same-Waits id c.tasks (t, find-append_some (λ m. m.id) id db.tasks added found, waits)
Step-Waits id {db} {db'} (schedules now task_id node_id epoch m known le e) v passes w =
    let c =
      Ensures-ok (λ u d. Scheduled now task_id node_id epoch db d)
        (schedule_task-Ensures now task_id node_id epoch db) e in
    same-Waits id c.tasks (
      update-Waits id (chosen task_id) (assigned_to now node_id epoch) db.tasks (λ t. refl)
        (λ t found h o.
          let named = str_eq→eq t.id task_id (&&-true (is_row task_id t) _ h).0 in
          let own = str_eq→eq t.id id (find-holds (is_row id) db.tasks found) in
          absurd (passes (sym own ∙ named)))
        w)
Step-Waits id {db} {db'} (reports now p t e) v passes w =
    Accepted-Waits id now p (update_task_status-Accepted now p db e) w
Step-Waits id {db} {db'} (registers new_id now params m fresh e) v passes w =
    same-Waits id
      (Ensures-ok (λ m d. d.tasks ≡ db.tasks) (register-KeepsTasks new_id now params db) e) w
Step-Waits id {db} {db'} (changes now node_id status event message m e) v passes w =
    same-Waits id
      (Ensures-ok (λ m d. d.tasks ≡ db.tasks)
        (status-KeepsTasks now node_id status event message db) e)
      w
Step-Waits id {db} {db'} (dies now node_id r e) v passes w =
    let d = Ensures-ok (Died node_id db) (mark_node_dead-Ensures now node_id db v.tasks_unique) e in
    same-Waits id d.tasks
      (update-Waits id (is_on node_id) orphan_requeued db.tasks (λ t. refl) (λ t f h o. refl) w)
Step-Waits id {db} {db'} (leads now identity addr ttl r e) v passes w =
    let (_, _, (l, present, a)) =
      Ensures-ok _ (try_acquire_or_renew_lease-Ensures now identity addr ttl db) e in
    same-Waits id (Attempt-keeps now identity addr (pos_part ttl) l db db' r a) w
Step-Waits id {db} {db'} (logs now entity entity_id event message e) v passes w =
    same-Waits id
      (Ensures-ok (λ u d. d.tasks ≡ db.tasks) (log-KeepsTasks now entity entity_id event message db)
        e)
      w

Reach-Waits :
    (id : String) {db db' : Db} (h : Reach db db')
    → IsValid db
    → PassesAll id h
    → Waits id db.tasks
    → Waits id db'.tasks
Reach-Waits id here v passes w = w
Reach-Waits id (next r s) v passes w =
    Step-Waits id s (Reach-IsSound v r).valid passes.1 (Reach-Waits id r v passes.0 w)

-- In valid tables a pending row is on no node.
pending-unassigned :
    (db : Db) (id : String) (t : Task)
    → IsValid db
    → find (is_row id) db.tasks ≡ some t
    → t.status ≡ pending
    → t.assigned_node_id ≡ none
pending-unassigned db id t v found e =
    let row = All-find (IsRow db.nodes db.jobs) (is_row id) db.tasks v.rows found in
    (subst (FitsStatus db.nodes t.assigned_node_id t.assigned_epoch) e row.assignment).0

-- An accepted report that leads to a retry is counted once until the task is placed again: whatever
-- else commits in between, the same report, in the name of a node that is not the empty one, is
-- refused as stale. The tables are valid before the first report.
pub retry_stays_counted :
    (now later : ℕ) (p : UpdateTaskStatusParams) {db db' db'' : Db} (t' : Task) (h : Reach db' db'')
    → IsValid db
    → p.node_id ≢ ""
    → update_task_status now p db ≡ ok (t', db')
    → t'.status ≡ pending
    → PassesAll p.task_id h
    → update_task_status later p db'' ≡ err stale_task_report
retry_stays_counted now later p {db} {db'} {db''} t' h v named e retried passes =
    let a = update_task_status-Accepted now p db e in
    let at : find (is_row p.task_id) db'.tasks ≡ some (a.f a.t) = rw a.tasks (
      find-update_self (λ t. t.id) p.task_id a.f db.tasks
        (Change-same_id now p db.jobs a.t a.f a.change a.t) a.found) in
    let v' = (Reach-IsSound v (next here (reports now p t' e))).valid in
    let (t, found, waits) =
      Reach-Waits p.task_id h v' passes
        (a.f a.t, at, subst (λ u. u.status ≡ pending) a.result retried) in
    stale_report later p db'' t found (
      unassigned-stale t p.node_id p.epoch named
        (pending-unassigned db'' p.task_id t (Reach-IsSound v' h).valid found waits))

-- ===== src/Store/Fenced.antt =====
-- internal/store: a node that has died, over the transactions that follow.
use arbiter_distributed_sche.Base.{
  All, All-find, Bool, List, Option, Option-cases, String, ap, arith, false, find, holds_text,
  if◌then◌else◌, inl, inr, ne→str_eq, refl, some, some-injective, subst, suc, sym, true, update,
  zero, ℕ, ◌&&◌, ◌++◌, ◌+◌, ◌∙◌, ◌≡◌, ◌≢◌,
}
use arbiter_distributed_sche.Base.Batch.{find-update}
use arbiter_distributed_sche.Base.Int.{pos_part}
use arbiter_distributed_sche.Base.Keys.{find-append_some, find-update-none, find_of_absent}
use arbiter_distributed_sche.Store.{Db, Ensures-ok, Job, Task, TaskStatus, committed, ok}
use arbiter_distributed_sche.Store.Allocation.{consumes, is_on}
use arbiter_distributed_sche.Store.History.{
  Reach, Reach-IsSound, Step, changes, creates, dies, here, leads, logs, next, registers, reports,
  schedules,
}
use arbiter_distributed_sche.Store.Jobs.{new_task}
use arbiter_distributed_sche.Store.Lease.Terms.{try_acquire_or_renew_lease-Ensures}
use arbiter_distributed_sche.Store.Lifecycle.{Accepted-reported}
use arbiter_distributed_sche.Store.Nodes.{MarkNodeDeadResult, mark_node_dead, orphan_requeued}
use arbiter_distributed_sche.Store.Refinement.{
  Attempt-keeps, log-KeepsTasks, register-KeepsTasks, status-KeepsTasks,
}
use arbiter_distributed_sche.Store.Report.{
  is_live, marked_running, marked_terminal, requeued, update_task_status,
}
use arbiter_distributed_sche.Store.Report.Accepting.{update_task_status-Accepted}
use arbiter_distributed_sche.Store.Report.Fencing.{
  Died-not_on, fence_passed, idle_report, live-is_on,
}
use arbiter_distributed_sche.Store.Report.Outcome.{
  Accepted, Change, Change-same_id, fails, repeated, requeues, started, succeeds,
}
use arbiter_distributed_sche.Store.Tasks.{UpdateTaskStatusParams, is_row}
use arbiter_distributed_sche.Store.Valid.{IsValid}
use arbiter_distributed_sche.Store.Valid.Creating.{Created, create_job-Ensures, new_tasks}
use arbiter_distributed_sche.Store.Valid.Dying.{Died, mark_node_dead-Ensures}
use arbiter_distributed_sche.Store.Valid.Scheduling.{
  Scheduled, assigned_to, chosen, schedule_task-Ensures,
}

-- No task is scheduled or runs on the node.
abbrev IsOff : String → List Task → Type 0
IsOff n tasks = (id : String) (t : Task) → find (is_row id) tasks ≡ some t → is_on n t ≡ false

update-IsOff :
    (n : String) (p : Task → Bool) (f : Task → Task) (tasks : List Task)
    → ((t : Task) → (f t).id ≡ t.id)
    → ((id : String) (t : Task)
        → find (is_row id) tasks ≡ some t
        → p t ≡ true
        → is_on n t ≡ false
        → is_on n (f t) ≡ false)
    → IsOff n tasks
    → IsOff n (update p f tasks)
update-IsOff n p f tasks same step off id t' e = elim (Option-cases (find (is_row id) tasks)) [
  | inl gone ↦ let still_gone = find-update-none (λ m. m.id) id p f tasks same gone in cc
  | inr (t, found) ↦
      subst (λ u. is_on n u ≡ false)
        (some-injective (sym (find-update (λ m. m.id) id p f tasks same found) ∙ e))
        (go t found (p t) refl)
]
  where
    go :
        (t : Task)
        → find (is_row id) tasks ≡ some t
        → (b : Bool) → p t ≡ b
        → is_on n (if b then f t else t) ≡ false
    go t found true h = step id t found h (off id t found)
    go t found false h = off id t found

append-IsOff :
    (n : String) (tasks more : List Task)
    → All (λ t. is_on n t ≡ false) more
    → IsOff n tasks
    → IsOff n (tasks ++ more)
append-IsOff n tasks more h off id t e = elim (Option-cases (find (is_row id) tasks)) [
  | inl gone ↦
      All-find (λ u. is_on n u ≡ false) (is_row id) more h
        (sym (find_of_absent (λ m. m.id) id tasks more gone) ∙ e)
  | inr (u, found) ↦
      subst (λ v. is_on n v ≡ false)
        (some-injective (sym (find-append_some (λ m. m.id) id tasks more found) ∙ e))
        (off id u found)
]

new_tasks-off :
    (n : String) (k i : ℕ) (ids : ℕ → String) (job_id : String) (now : ℕ)
    → All (λ t. is_on n t ≡ false) (new_tasks k i ids job_id now)
unfolding new_tasks new_task is_on
new_tasks-off n zero i ids job_id now = tt
new_tasks-off n (suc k) i ids job_id now = (refl, new_tasks-off n k (i + 1) ids job_id now)

live-consumes : (s : TaskStatus) → is_live s ≡ true → consumes s ≡ true
unfolding is_live consumes
live-consumes s h = ground arith

started_off : (a b : Bool) → b ≡ true → (a && b) ≡ false → (a && true) ≡ false
started_off a b h e = ground arith

off_of_status :
    (n : String) (o : Option String) (s : TaskStatus)
    → consumes s ≡ false
    → (holds_text o n && consumes s) ≡ false
off_of_status n o s h = ground arith

-- An accepted report puts no task on a node.
Change-off :
    (n : String) (now : ℕ) (p : UpdateTaskStatusParams) (jobs : List Job) (t : Task)
    (f : Task → Task)
    → Change now p jobs t f
    → is_on n t ≡ false
    → is_on n (f t) ≡ false
unfolding is_on consumes marked_running marked_terminal requeued
Change-off n now p jobs t f (repeated _ _) h = h
Change-off n now p jobs t f (started _ live) h =
    started_off (holds_text t.assigned_node_id n) (consumes t.status) (live-consumes t.status live)
      h
Change-off n now p jobs t f (succeeds s live) h =
    off_of_status n t.assigned_node_id p.status (ap consumes s)
Change-off n now p jobs t f (fails _ s live _ _) h =
    off_of_status n t.assigned_node_id p.status (ap consumes s)
Change-off n now p jobs t f (requeues _ _ live _ _) h = refl

-- The transaction places no task on the node.
abbrev pub Spares : String → {db db' : Db} → Step db db' → Type 0
Spares n (schedules now task_id node_id epoch m known le e) = node_id ≢ n
Spares n _ = Unit {0}

-- No transaction of the history places a task on the node.
abbrev pub SparesAll : String → {db db' : Db} → Reach db db' → Type 0
SparesAll n here = Unit {0}
SparesAll n (next r s) = SparesAll n r × Spares n s

same-IsOff :
    (n : String) {tasks tasks' : List Task} → tasks' ≡ tasks → IsOff n tasks → IsOff n tasks'
same-IsOff n e off = subst (IsOff n) (sym e) off

Accepted-IsOff :
    (n : String) (now : ℕ) (p : UpdateTaskStatusParams) {db db' : Db} {t' : Task}
    → Accepted now p db t' db'
    → IsOff n db.tasks
    → IsOff n db'.tasks
Accepted-IsOff n now p {db} {db'} a off = same-IsOff n a.tasks (
    update-IsOff n (is_row p.task_id) a.f db.tasks (Change-same_id now p db.jobs a.t a.f a.change)
      (λ id t e h o.
        let same : a.t ≡ t = sym (Accepted-reported now p a id t e h) in
        subst (λ u. is_on n (a.f u) ≡ false) same
          (Change-off n now p db.jobs a.t a.f a.change
            (subst (λ u. is_on n u ≡ false) (sym same) o)))
      off)

Step-IsOff :
    (n : String) {db db' : Db} (s : Step db db')
    → IsValid db
    → Spares n s
    → IsOff n db.tasks
    → IsOff n db'.tasks
unfolding is_on orphan_requeued consumes
Step-IsOff n {db} {db'} (creates job_id ids now params job unused fresh e) v spares off =
    let c =
      Ensures-ok (Created job_id ids now params db) (create_job-Ensures job_id ids now params db)
        e in
    let added = new_tasks (pos_part params.replicas) 0 ids job_id now in
    same-IsOff n c.tasks (
      append-IsOff n db.tasks added (new_tasks-off n (pos_part params.replicas) 0 ids job_id now)
        off)
Step-IsOff n {db} {db'} (schedules now task_id node_id epoch m known le e) v spares off =
    let c =
      Ensures-ok (λ u d. Scheduled now task_id node_id epoch db d)
        (schedule_task-Ensures now task_id node_id epoch db) e in
    same-IsOff n c.tasks (
      update-IsOff n (chosen task_id) (assigned_to now node_id epoch) db.tasks (λ t. refl)
        (λ id t f h o. ap (λ b. b && true) (ne→str_eq node_id n spares)) off)
Step-IsOff n {db} {db'} (reports now p t e) v spares off =
    Accepted-IsOff n now p (update_task_status-Accepted now p db e) off
Step-IsOff n {db} {db'} (registers new_id now params m fresh e) v spares off =
    same-IsOff n
      (Ensures-ok (λ m d. d.tasks ≡ db.tasks) (register-KeepsTasks new_id now params db) e) off
Step-IsOff n {db} {db'} (changes now id status event message m e) v spares off =
    same-IsOff n
      (Ensures-ok (λ m d. d.tasks ≡ db.tasks) (status-KeepsTasks now id status event message db) e)
      off
Step-IsOff n {db} {db'} (dies now id r e) v spares off =
    let d = Ensures-ok (Died id db) (mark_node_dead-Ensures now id db v.tasks_unique) e in
    same-IsOff n d.tasks
      (update-IsOff n (is_on id) orphan_requeued db.tasks (λ t. refl) (λ i t f h o. refl) off)
Step-IsOff n {db} {db'} (leads now identity addr ttl r e) v spares off =
    let (_, _, (l, present, a)) =
      Ensures-ok _ (try_acquire_or_renew_lease-Ensures now identity addr ttl db) e in
    same-IsOff n (Attempt-keeps now identity addr (pos_part ttl) l db db' r a) off
Step-IsOff n {db} {db'} (logs now entity id event message e) v spares off =
    same-IsOff n
      (Ensures-ok (λ u d. d.tasks ≡ db.tasks) (log-KeepsTasks now entity id event message db) e) off

Reach-IsOff :
    (n : String) {db db' : Db} (h : Reach db db')
    → IsValid db
    → SparesAll n h
    → IsOff n db.tasks
    → IsOff n db'.tasks
Reach-IsOff n here v spares off = off
Reach-IsOff n (next r s) v spares off =
    Step-IsOff n s (Reach-IsSound v r).valid spares.1 (Reach-IsOff n r v spares.0 off)

-- From the moment `MarkNodeDead` commits until a task is placed on the node again, whatever else
-- commits in between, a re-registration of the node included, no report in the node's name, of
-- whatever task, status and epoch, changes anything. The tables are valid before the death, and the
-- node's id is not empty.
pub dead_node_stays_fenced :
    (now later : ℕ) (node_id : String) (p : UpdateTaskStatusParams) {db db' db'' : Db}
    (r : MarkNodeDeadResult) (h : Reach db' db'')
    → IsValid db
    → node_id ≢ ""
    → p.node_id ≡ node_id
    → mark_node_dead now node_id db ≡ ok (r, db')
    → SparesAll node_id h
    → committed db'' (update_task_status later p db'') ≡ db''
dead_node_stays_fenced now later node_id p {db} {db'} {db''} r h v named own e spares =
    let d = Ensures-ok (Died node_id db) (mark_node_dead-Ensures now node_id db v.tasks_unique) e in
    let off =
      Reach-IsOff node_id h (Reach-IsSound v (next here (dies now node_id r e))).valid spares
        (λ id t found. Died-not_on d t id found) in
    idle_report later p db'' λ t found fence.
      let (on, _) = fence_passed t p.node_id p.epoch (rw own named) fence in
      sym (live-is_on t node_id (on ∙ ap some own)) ∙ off p.task_id t found

-- ===== src/Store/Lifecycle.antt =====
-- internal/store: the life of a task, as its rows show it over the committed transactions.
use arbiter_distributed_sche.Base.{
  &&-true, Bool, List, Option, String, false, find, find-holds, holds_text, if◌then◌else◌, refl,
  some, some-injective, str_eq→eq, subst, sym, true, update, ℕ, ◌++◌, ◌∙◌, ◌≡◌,
}
use arbiter_distributed_sche.Base.Batch.{find-update}
use arbiter_distributed_sche.Base.Keys.{find-append_some}
use arbiter_distributed_sche.Store.{
  Db, Job, Task, TaskStatus, cancelled, failed, orphaned, other, pending, running, same_status,
  scheduled, succeeded,
}
use arbiter_distributed_sche.Store.Allocation.{consumes, is_on}
use arbiter_distributed_sche.Store.Nodes.{MarkNodeDeadResult, orphan_requeued}
use arbiter_distributed_sche.Store.Report.{is_live, marked_running, marked_terminal, requeued}
use arbiter_distributed_sche.Store.Report.Outcome.{
  Accepted, Change, Change-same_id, fails, repeated, requeues, started, succeeds,
}
use arbiter_distributed_sche.Store.Tasks.{UpdateTaskStatusParams, is_row}
use arbiter_distributed_sche.Store.Valid.Dying.{Died}
use arbiter_distributed_sche.Store.Valid.Scheduling.{Scheduled, assigned_to, chosen}

-- What a row says of its task. A task that is placed or at work has a node and an epoch.
pub data Phase : Type 0 where
  waiting finished_well given_up elsewhere : Phase
  placed at_work : Option String → Option ℕ → Phase

-- What can become of a task that a node holds: an end, or back to the queue.
pub data Leaves : Phase → Type 0 where
  well : Leaves finished_well
  for_good : Leaves given_up
  to_queue : Leaves waiting

-- The abstract life of a task: a transaction leaves it, or moves it along one of these.
pub data Moves : Phase → Phase → Type 0 where
  stays : (p : Phase) → Moves p p
  is_placed : (n : Option String) (e : Option ℕ) → Moves waiting (placed n e)
  begins : (n : Option String) (e : Option ℕ) → Moves (placed n e) (at_work n e)
  unplaced : (n : Option String) (e : Option ℕ) (q : Phase) → Leaves q → Moves (placed n e) q
  stops : (n : Option String) (e : Option ℕ) (q : Phase) → Leaves q → Moves (at_work n e) q

abbrev pub phase_for : TaskStatus → Option String → Option ℕ → Phase
phase_for pending n e = waiting
phase_for scheduled n e = placed n e
phase_for running n e = at_work n e
phase_for succeeded n e = finished_well
phase_for failed n e = given_up
phase_for _ n e = elsewhere

-- The phase of a row.
abbrev pub phase_of : Task → Phase
phase_of t = phase_for t.status t.assigned_node_id t.assigned_epoch

-- A task that runs or is about to can leave its node.
live_Leaves :
    (s : TaskStatus) (n : Option String) (e : Option ℕ) (q : Phase)
    → is_live s ≡ true
    → Leaves q
    → Moves (phase_for s n e) q
unfolding is_live
live_Leaves pending n e q h l = cc
live_Leaves scheduled n e q h l = unplaced n e q l
live_Leaves running n e q h l = stops n e q l
live_Leaves succeeded n e q h l = cc
live_Leaves failed n e q h l = cc
live_Leaves orphaned n e q h l = cc
live_Leaves cancelled n e q h l = cc
live_Leaves (other s) n e q h l = cc

live_begins :
    (s : TaskStatus) (n : Option String) (e : Option ℕ)
    → is_live s ≡ true
    → Moves (phase_for s n e) (at_work n e)
unfolding is_live
live_begins pending n e h = cc
live_begins scheduled n e h = begins n e
live_begins running n e h = stays (at_work n e)
live_begins succeeded n e h = cc
live_begins failed n e h = cc
live_begins orphaned n e h = cc
live_begins cancelled n e h = cc
live_begins (other s) n e h = cc

pending_is_placed :
    (s : TaskStatus) (n m : Option String) (e f : Option ℕ)
    → same_status s pending ≡ true
    → Moves (phase_for s n e) (placed m f)
unfolding same_status
pending_is_placed pending n m e f h = is_placed m f
pending_is_placed scheduled n m e f h = cc
pending_is_placed running n m e f h = cc
pending_is_placed succeeded n m e f h = cc
pending_is_placed failed n m e f h = cc
pending_is_placed orphaned n m e f h = cc
pending_is_placed cancelled n m e f h = cc
pending_is_placed (other s) n m e f h = cc

consumes-is_live : (s : TaskStatus) → consumes s ≡ true → is_live s ≡ true
unfolding consumes is_live
consumes-is_live pending h = cc
consumes-is_live scheduled h = refl
consumes-is_live running h = refl
consumes-is_live succeeded h = cc
consumes-is_live failed h = cc
consumes-is_live orphaned h = cc
consumes-is_live cancelled h = cc
consumes-is_live (other s) h = cc

-- An accepted report moves its task.
Change-Moves :
    (now : ℕ) (p : UpdateTaskStatusParams) (jobs : List Job) (t : Task) (f : Task → Task)
    → Change now p jobs t f
    → Moves (phase_of t) (phase_of (f t))
unfolding marked_running marked_terminal requeued
Change-Moves now p jobs t f (repeated _ _) = stays (phase_of t)
Change-Moves now p jobs t f (started _ live) =
    live_begins t.status t.assigned_node_id t.assigned_epoch live
Change-Moves now p jobs t f (succeeds s live) =
    rw s (live_Leaves t.status t.assigned_node_id t.assigned_epoch finished_well live well)
Change-Moves now p jobs t f (fails _ s live _ _) =
    rw s (live_Leaves t.status t.assigned_node_id t.assigned_epoch given_up live for_good)
Change-Moves now p jobs t f (requeues _ _ live _ _) =
    live_Leaves t.status t.assigned_node_id t.assigned_epoch waiting live to_queue

-- Each task that was there is there, and has moved.
abbrev pub TasksMove : List Task → List Task → Type 0
TasksMove tasks tasks' =
    (id : String) (t : Task)
    → find (is_row id) tasks ≡ some t
    → (t' : Task) × (find (is_row id) tasks' ≡ some t') × Moves (phase_of t) (phase_of t')

pub same-TasksMove : {tasks tasks' : List Task} → tasks' ≡ tasks → TasksMove tasks tasks'
same-TasksMove e id t found = (t, rw e found, stays (phase_of t))

update-TasksMove :
    (p : Task → Bool) (f : Task → Task) (tasks : List Task)
    → ((t : Task) → (f t).id ≡ t.id)
    → ((id : String) (t : Task)
        → find (is_row id) tasks ≡ some t
        → p t ≡ true
        → Moves (phase_of t) (phase_of (f t)))
    → TasksMove tasks (update p f tasks)
update-TasksMove p f tasks same step id t e =
    (if p t then f t else t, find-update (λ m. m.id) id p f tasks same e, go (p t) refl)
  where
    go : (b : Bool) → p t ≡ b → Moves (phase_of t) (phase_of (if b then f t else t))
    go true h = step id t e h
    go false h = stays (phase_of t)

-- The row that an accepted report is about.
pub Accepted-reported :
    (now : ℕ) (p : UpdateTaskStatusParams) {db db' : Db} {t' : Task} (a : Accepted now p db t' db')
    (id : String) (t : Task)
    → find (is_row id) db.tasks ≡ some t
    → is_row p.task_id t ≡ true
    → t ≡ a.t
Accepted-reported now p {db} a id t e h =
    let own = str_eq→eq t.id id (find-holds (is_row id) db.tasks e) in
    let named = str_eq→eq t.id p.task_id h in
    some-injective
      (sym (subst (λ i. find (is_row i) db.tasks ≡ some t) (sym own ∙ named) e) ∙ a.found)

pub Accepted-TasksMove :
    (now : ℕ) (p : UpdateTaskStatusParams) {db db' : Db} {t' : Task}
    → Accepted now p db t' db'
    → TasksMove db.tasks db'.tasks
Accepted-TasksMove now p {db} {db'} a = subst (TasksMove db.tasks) (sym a.tasks) (
    update-TasksMove (is_row p.task_id) a.f db.tasks (Change-same_id now p db.jobs a.t a.f a.change)
      (λ id t e h.
        subst (λ u. Moves (phase_of u) (phase_of (a.f u)))
          (sym (Accepted-reported now p a id t e h)) (Change-Moves now p db.jobs a.t a.f a.change)))

pub Died-TasksMove :
    {id : String} {db db' : Db} {r : MarkNodeDeadResult}
    → Died id db r db'
    → TasksMove db.tasks db'.tasks
unfolding orphan_requeued is_on
Died-TasksMove {id} {db} {db'} d = subst (TasksMove db.tasks) (sym d.tasks) (
    update-TasksMove (is_on id) orphan_requeued db.tasks (λ t. refl)
      (λ i t e h.
        live_Leaves t.status t.assigned_node_id t.assigned_epoch waiting
          (consumes-is_live t.status
            (&&-true (holds_text t.assigned_node_id id) (consumes t.status) h).1)
          to_queue))

pub Scheduled-TasksMove :
    (now : ℕ) (task_id node_id : String) (epoch : ℕ) {db db' : Db}
    → Scheduled now task_id node_id epoch db db'
    → TasksMove db.tasks db'.tasks
Scheduled-TasksMove now task_id node_id epoch {db} {db'} s =
    subst (TasksMove db.tasks) (sym s.tasks) (
      update-TasksMove (chosen task_id) (assigned_to now node_id epoch) db.tasks (λ t. refl)
        (λ id t e h.
          pending_is_placed t.status t.assigned_node_id (some node_id) t.assigned_epoch (some epoch)
            (&&-true (is_row task_id t) (same_status t.status pending) h).1))

pub append-TasksMove : (tasks more : List Task) → TasksMove tasks (tasks ++ more)
append-TasksMove tasks more id t e =
    (t, find-append_some (λ m. m.id) id tasks more e, stays (phase_of t))

-- ===== src/Store/Refinement.antt =====
-- internal/store: every committed transaction is a step of the abstract life of each task.
use arbiter_distributed_sche.Base.{
  Bool-cases, List, Option, Option-cases, String, ap, find, inl, inr, ltb, none, refl, some, subst,
  sym, update, ℕ, ◌+◌, ◌^◌, ◌≡◌,
}
use arbiter_distributed_sche.Base.Int.{pos_part}
use arbiter_distributed_sche.Store.{
  Db, Ensures, Ensures-ok, EntityType, EventType, LeaderLease, Node, NodeStatus, Part, Result, Task,
  bind-Ensures, bump_epoch,
}
use arbiter_distributed_sche.Store.Events.{insert_event, insert_event_alone}
use arbiter_distributed_sche.Store.History.{
  Reach, Reach-IsSound, Step, changes, creates, dies, leads, logs, registers, reports, schedules,
}
use arbiter_distributed_sche.Store.Lease.{LeaseAcquireResult}
use arbiter_distributed_sche.Store.Lease.Terms.{
  Attempt, refused, renewed, taken, try_acquire_or_renew_lease-Ensures,
}
use arbiter_distributed_sche.Store.Lifecycle.{
  Accepted-TasksMove, Died-TasksMove, Moves, Scheduled-TasksMove, TasksMove, append-TasksMove,
  phase_of, same-TasksMove,
}
use arbiter_distributed_sche.Store.Nodes.{
  RegisterNodeParams, is_at, is_node, register_node, update_node, update_node_status, upsert_node,
}
use arbiter_distributed_sche.Store.Report.Accepting.{update_task_status-Accepted}
use arbiter_distributed_sche.Store.Tasks.{is_row}
use arbiter_distributed_sche.Store.Valid.{IsValid}
use arbiter_distributed_sche.Store.Valid.Creating.{Created, create_job-Ensures, new_tasks}
use arbiter_distributed_sche.Store.Valid.Dying.{Died, mark_node_dead-Ensures}
use arbiter_distributed_sche.Store.Valid.Scheduling.{Scheduled, schedule_task-Ensures}

-- A transaction on the nodes, the lease or the audit trail leaves the tasks.
abbrev pub KeepsTasks : {A : Type 0} → Db → Result (A × Db) → Type 0
KeepsTasks db r = Ensures (λ a db'. db'.tasks ≡ db.tasks) r

upsert-KeepsTasks :
    (new_id : String) (now : ℕ) (params : RegisterNodeParams) (o : Option Node) (db : Db)
    → KeepsTasks db (upsert_node new_id now params o db)
unfolding upsert_node bump_epoch
upsert-KeepsTasks new_id now params none db = refl
upsert-KeepsTasks new_id now params (some old) db =
    elim (Bool-cases (ltb (old.epoch + 1) (2 ^ 63))) [
      | inl fits ↦ rw fits refl
      | inr over ↦ rw over tt
    ]

pub register-KeepsTasks :
    (new_id : String) (now : ℕ) (params : RegisterNodeParams) (db : Db)
    → KeepsTasks db (register_node new_id now params db)
unfolding register_node insert_event
register-KeepsTasks new_id now params db =
    let o = find (is_at params.hostname params.address) db.nodes in
    bind-Ensures (λ n db'. db'.tasks ≡ db.tasks) (λ n db'. db'.tasks ≡ db.tasks)
      (upsert_node new_id now params o db) _ (upsert-KeepsTasks new_id now params o db)
      (λ n db' s. s)

pub status-KeepsTasks :
    (now : ℕ) (id : String) (status : NodeStatus) (event : EventType) (message : List Part)
    (db : Db)
    → KeepsTasks db (update_node_status now id status event message db)
unfolding update_node_status update_node insert_event
status-KeepsTasks now id status event message db =
    elim (Option-cases
      (find (is_node id) (update (is_node id) (λ n. record n { status = status }) db.nodes))) [
        | inl gone ↦ simp gone tt
        | inr (n, present) ↦ simp present refl
      ]

pub log-KeepsTasks :
    (now : ℕ) (entity : EntityType) (id : String) (event : EventType) (message : List Part)
    (db : Db)
    → KeepsTasks db (insert_event_alone now entity id event message db)
unfolding insert_event_alone insert_event
log-KeepsTasks now entity id event message db = refl

pub Attempt-keeps :
    (now : ℕ) (identity addr : String) (ttl : ℕ) (l : LeaderLease) (db db' : Db)
    (r : LeaseAcquireResult)
    → Attempt now identity addr ttl l db db' r
    → db'.tasks ≡ db.tasks
Attempt-keeps now identity addr ttl l db db' r (refused _ _ e _) = ap (λ d. d.tasks) e
Attempt-keeps now identity addr ttl l db db' r (renewed _ e _) = ap (λ d. d.tasks) e
Attempt-keeps now identity addr ttl l db db' r (taken _ _ _ k _) = k.tasks

-- A committed transaction moves every task along the abstract life, or leaves it.
pub Step-TasksMove : {db db' : Db} → IsValid db → Step db db' → TasksMove db.tasks db'.tasks
Step-TasksMove {db} {db'} v (creates job_id ids now params job unused fresh e) =
    let c =
      Ensures-ok (Created job_id ids now params db) (create_job-Ensures job_id ids now params db)
        e in
    subst (TasksMove db.tasks) (sym c.tasks)
      (append-TasksMove db.tasks (new_tasks (pos_part params.replicas) 0 ids job_id now))
Step-TasksMove {db} {db'} v (schedules now task_id node_id epoch n known le e) =
    Scheduled-TasksMove now task_id node_id epoch (
      Ensures-ok (λ u d. Scheduled now task_id node_id epoch db d)
        (schedule_task-Ensures now task_id node_id epoch db) e)
Step-TasksMove {db} {db'} v (reports now p t e) =
    Accepted-TasksMove now p (update_task_status-Accepted now p db e)
Step-TasksMove {db} {db'} v (registers new_id now params n fresh e) =
    same-TasksMove
      (Ensures-ok (λ m d. d.tasks ≡ db.tasks) (register-KeepsTasks new_id now params db) e)
Step-TasksMove {db} {db'} v (changes now id status event message n e) =
    same-TasksMove
      (Ensures-ok (λ m d. d.tasks ≡ db.tasks) (status-KeepsTasks now id status event message db) e)
Step-TasksMove {db} {db'} v (dies now id r e) =
    Died-TasksMove (Ensures-ok (Died id db) (mark_node_dead-Ensures now id db v.tasks_unique) e)
Step-TasksMove {db} {db'} v (leads now identity addr ttl r e) =
    let (_, _, (l, present, a)) =
      Ensures-ok _ (try_acquire_or_renew_lease-Ensures now identity addr ttl db) e in
    same-TasksMove (Attempt-keeps now identity addr (pos_part ttl) l db db' r a)
Step-TasksMove {db} {db'} v (logs now entity id event message e) =
    same-TasksMove
      (Ensures-ok (λ u d. d.tasks ≡ db.tasks) (log-KeepsTasks now entity id event message db) e)

-- The store refines the abstract life of a task, transaction by transaction: in every history that
-- starts with valid tables, each committed transaction leaves the phase of each task or moves it
-- once, as that life allows. A waiting task is placed on a node under an epoch; a placed task begins
-- on that node under that epoch; from either of these it ends well, is given up, or waits again; and
-- no other move exists.
pub Reach-TasksMove :
    {db db' db'' : Db} (id : String) (t : Task)
    → IsValid db
    → Reach db db'
    → Step db' db''
    → find (is_row id) db'.tasks ≡ some t
    → (t' : Task) × (find (is_row id) db''.tasks ≡ some t') × Moves (phase_of t) (phase_of t')
Reach-TasksMove id t v r s e = Step-TasksMove (Reach-IsSound v r).valid s id t e

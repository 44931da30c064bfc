-- ===== src/Store/History.antt =====
-- internal/store: every history of committed transactions. A transaction that fails is rolled back
-- and is no step.
use arbiter_distributed_sche.Base.{List, String, find, none, refl, some, ℕ, ◌≡◌, ◌≤◌}
use arbiter_distributed_sche.Base.Int.{pos_part, ℤ}
use arbiter_distributed_sche.Store.{
  Db, Ensures, Ensures-ok, EntityType, EventType, Job, LeaderLease, Node, NodeStatus, Part, Task,
  ok,
}
use arbiter_distributed_sche.Store.Events.{insert_event_alone}
use arbiter_distributed_sche.Store.Jobs.{CreateJobParams, create_job}
use arbiter_distributed_sche.Store.Lease.{LeaseAcquireResult, try_acquire_or_renew_lease}
use arbiter_distributed_sche.Store.Lease.Terms.{
  Attempt, refused, renewed, taken, try_acquire_or_renew_lease-Ensures,
}
use arbiter_distributed_sche.Store.Nodes.{
  MarkNodeDeadResult, RegisterNodeParams, is_node, mark_node_dead, register_node,
  update_node_status,
}
use arbiter_distributed_sche.Store.Report.{update_task_status}
use arbiter_distributed_sche.Store.Tasks.{UpdateTaskStatusParams, schedule_task}
use arbiter_distributed_sche.Store.Valid.{IsSound, IsValid, is_job}
use arbiter_distributed_sche.Store.Valid.Creating.{IsFresh, create_job-IsSound}
use arbiter_distributed_sche.Store.Valid.Dying.{mark_node_dead-IsSound}
use arbiter_distributed_sche.Store.Valid.Nodes.{register_node-IsSound, update_node_status-IsSound}
use arbiter_distributed_sche.Store.Valid.Reporting.{update_task_status-IsSound}
use arbiter_distributed_sche.Store.Valid.Rows.{IsSound-refl, IsSound-trans, tables-IsSound}
use arbiter_distributed_sche.Store.Valid.Scheduling.{schedule_task-IsSound}

-- One committed transaction, with what its caller hands it.
pub data Step (db db' : Db) : Type 0 where
  creates :
      (job_id : String) (ids : ℕ → String) (now : ℕ) (params : CreateJobParams) (job : Job)
      → find (is_job job_id) db.jobs ≡ none
      → IsFresh ids db.tasks
      → create_job job_id ids now params db ≡ ok (job, db')
      → Step db db'
  -- The node may have been read before: its epoch at that time is at most the present one.
  schedules :
      (now : ℕ) (task_id node_id : String) (epoch : ℕ) (n : Node)
      → find (is_node node_id) db.nodes ≡ some n
      → epoch ≤ n.epoch
      → schedule_task now task_id node_id epoch db ≡ ok (tt, db')
      → Step db db'
  reports :
      (now : ℕ) (p : UpdateTaskStatusParams) (t : Task)
      → update_task_status now p db ≡ ok (t, db')
      → Step db db'
  registers :
      (new_id : String) (now : ℕ) (params : RegisterNodeParams) (n : Node)
      → find (is_node new_id) db.nodes ≡ none
      → register_node new_id now params db ≡ ok (n, db')
      → Step db db'
  changes :
      (now : ℕ) (id : String) (status : NodeStatus) (event : EventType) (message : List Part)
      (n : Node)
      → update_node_status now id status event message db ≡ ok (n, db')
      → Step db db'
  dies :
      (now : ℕ) (id : String) (r : MarkNodeDeadResult)
      → mark_node_dead now id db ≡ ok (r, db')
      → Step db db'
  leads :
      (now : ℕ) (identity addr : String) (ttl : ℤ) (r : LeaseAcquireResult)
      → try_acquire_or_renew_lease now identity addr ttl db ≡ ok (r, db')
      → Step db db'
  logs :
      (now : ℕ) (entity : EntityType) (id : String) (event : EventType) (message : List Part)
      → insert_event_alone now entity id event message db ≡ ok (tt, db')
      → Step db db'

pub data Reach (db : Db) : Db → Type 0 where
  here : Reach db db
  next : {b c : Db} → Reach db b → Step b c → Reach db c

tried-IsSound :
    (now : ℕ) (identity addr : String) (ttl : ℕ) (l : LeaderLease) {db db' : Db}
    (r : LeaseAcquireResult)
    → IsValid db
    → Attempt now identity addr ttl l db db' r
    → IsSound db db'
tried-IsSound now identity addr ttl l {db} {db'} r v (refused _ _ e _) = rw e (IsSound-refl v)
tried-IsSound now identity addr ttl l {db} {db'} r v (renewed _ e _) =
    rw e (tables-IsSound (IsSound-refl v) _ refl refl refl)
tried-IsSound now identity addr ttl l {db} {db'} r v (taken _ _ _ k _) =
    tables-IsSound (IsSound-refl v) db' k.nodes k.jobs k.tasks

logged-IsSound :
    (now : ℕ) (entity : EntityType) (id : String) (event : EventType) (message : List Part)
    {db : Db}
    → IsValid db
    → Ensures (λ _ db'. IsSound db db') (insert_event_alone now entity id event message db)
unfolding insert_event_alone
logged-IsSound now entity id event message v = tables-IsSound (IsSound-refl v) _ refl refl refl

pub Step-IsSound : {db db' : Db} → IsValid db → Step db db' → IsSound db db'
Step-IsSound {db} {db'} v (creates job_id ids now params job unused fresh e) =
    Ensures-ok (λ _ d. IsSound db d) (create_job-IsSound job_id ids now params unused fresh v) e
Step-IsSound {db} {db'} v (schedules now task_id node_id epoch n found le e) =
    Ensures-ok (λ _ d. IsSound db d) (schedule_task-IsSound now task_id node_id epoch found le v) e
Step-IsSound {db} {db'} v (reports now p t e) =
    Ensures-ok (λ _ d. IsSound db d) (update_task_status-IsSound now p v) e
Step-IsSound {db} {db'} v (registers new_id now params n fresh e) =
    Ensures-ok (λ _ d. IsSound db d) (register_node-IsSound new_id now params fresh v) e
Step-IsSound {db} {db'} v (changes now id status event message n e) =
    Ensures-ok (λ _ d. IsSound db d) (update_node_status-IsSound now id status event message v) e
Step-IsSound {db} {db'} v (dies now id r e) =
    Ensures-ok (λ _ d. IsSound db d) (mark_node_dead-IsSound now id v) e
Step-IsSound {db} {db'} v (leads now identity addr ttl r e) =
    let (_, _, (l, found, a)) =
      Ensures-ok _ (try_acquire_or_renew_lease-Ensures now identity addr ttl db) e in
    tried-IsSound now identity addr (pos_part ttl) l r v a
Step-IsSound {db} {db'} v (logs now entity id event message e) =
    Ensures-ok (λ _ d. IsSound db d) (logged-IsSound now entity id event message v) e

-- Over every history that starts with valid tables they stay valid: every task belongs to a job and has used no more
-- retries than the job allows, a pending task is unassigned, every other one carries a node that
-- exists and an epoch not beyond that node's, and the three keys stay unique. No task, node or job
-- is lost, retries and node epochs never fall, and a succeeded or failed row never changes again.
pub Reach-IsSound : {db db' : Db} → IsValid db → Reach db db' → IsSound db db'
Reach-IsSound v here = IsSound-refl v
Reach-IsSound v (next r s) =
    let before = Reach-IsSound v r in IsSound-trans before (Step-IsSound before.valid s)

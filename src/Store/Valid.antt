-- ===== src/Store/Valid.antt =====
-- What holds of the tables between two transactions, and how a transaction may change them.
pub mod Rows
pub mod Nodes
pub mod Dying
pub mod Reporting
pub mod Creating
pub mod Scheduling
use arbiter_distributed_sche.Base.{
  All, Bool, List, Option, String, false, find, none, some, str_eq, true, ℕ, ◌≡◌, ◌≤◌,
}
use arbiter_distributed_sche.Base.Int.{pos_part}
use arbiter_distributed_sche.Base.Keys.{IsUnique}
use arbiter_distributed_sche.Store.{
  Db, Job, Node, Task, TaskStatus, failed, pending, running, scheduled, succeeded,
}
use arbiter_distributed_sche.Store.Jobs.{job_checks}
use arbiter_distributed_sche.Store.Nodes.{is_node}
use arbiter_distributed_sche.Store.Tasks.{is_row}

-- The node of an assignment exists, and its epoch has not fallen behind the assignment's.
abbrev pub IsAssigned : List Node → Option String → Option ℕ → Type 0
IsAssigned nodes (some id) (some e) =
    (n : Node) × (find (is_node id) nodes ≡ some n) × (e ≤ n.epoch)
IsAssigned nodes _ _ = ⊥

-- An unassigned task is pending; no row is orphaned, cancelled or of an unnamed status.
abbrev pub FitsStatus : List Node → Option String → Option ℕ → TaskStatus → Type 0
FitsStatus nodes id e pending = (id ≡ none) × (e ≡ none)
FitsStatus nodes id e scheduled = IsAssigned nodes id e
FitsStatus nodes id e running = IsAssigned nodes id e
FitsStatus nodes id e succeeded = IsAssigned nodes id e
FitsStatus nodes id e failed = IsAssigned nodes id e
FitsStatus nodes id e _ = ⊥

abbrev pub is_job : String → Job → Bool
is_job id j = str_eq j.id id

-- The job exists, and no retry passes its limit.
abbrev pub FitsJob : List Job → Task → Type 0
FitsJob jobs t =
    (j : Job) × (find (is_job t.job_id) jobs ≡ some j) × (t.retries_used ≤ pos_part j.retry_limit)

pub record IsRow (nodes : List Node) (jobs : List Job) (t : Task) : Type 0 where
  pub assignment : FitsStatus nodes t.assigned_node_id t.assigned_epoch t.status
  pub job : FitsJob jobs t

pub record IsValid (db : Db) : Type 0 where
  pub nodes_unique : IsUnique (λ (n : Node). n.id) db.nodes
  pub jobs_unique : IsUnique (λ (j : Job). j.id) db.jobs
  pub jobs_checked : All (λ j. job_checks j ≡ true) db.jobs
  pub tasks_unique : IsUnique (λ (t : Task). t.id) db.tasks
  pub rows : All (IsRow db.nodes db.jobs) db.tasks

abbrev pub is_final : TaskStatus → Bool
is_final succeeded = true
is_final failed = true
is_final _ = false

-- How a row may change: it stays with its job, its retries do not fall, and a final row stays whole.
pub record Advances (t t' : Task) : Type 0 where
  pub same_job : t'.job_id ≡ t.job_id
  pub retries : t.retries_used ≤ t'.retries_used
  pub final : is_final t.status ≡ true → t' ≡ t

-- Every task is still there.
abbrev pub TasksAdvance : List Task → List Task → Type 0
TasksAdvance tasks tasks' =
    (id : String) (t : Task)
    → find (is_row id) tasks ≡ some t
    → (t' : Task) × (find (is_row id) tasks' ≡ some t') × Advances t t'

-- Every node is still there, and its epoch has not fallen.
abbrev pub NodesAdvance : List Node → List Node → Type 0
NodesAdvance nodes nodes' =
    (id : String) (n : Node)
    → find (is_node id) nodes ≡ some n
    → (n' : Node) × (find (is_node id) nodes' ≡ some n') × (n.epoch ≤ n'.epoch)

abbrev pub JobsStay : List Job → List Job → Type 0
JobsStay jobs jobs' =
    (id : String) (j : Job) → find (is_job id) jobs ≡ some j → find (is_job id) jobs' ≡ some j

pub record Evolves (db db' : Db) : Type 0 where
  pub tasks : TasksAdvance db.tasks db'.tasks
  pub nodes : NodesAdvance db.nodes db'.nodes
  pub jobs : JobsStay db.jobs db'.jobs

-- A transaction that succeeds leaves valid tables that evolved from the old ones.
pub record IsSound (db db' : Db) : Type 0 where
  pub valid : IsValid db'
  pub evolves : Evolves db db'

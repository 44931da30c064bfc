-- ===== src/Store.antt =====
-- internal/store: the rows of the database, its tables as one record, and transactions over it.
-- A transaction that fails is rolled back, so an operation that fails leaves the database alone.
pub mod Success
pub mod Events
pub mod Valid
pub mod Jobs
pub mod Tasks
pub mod Report
pub mod Allocation
pub mod Nodes
pub mod Lease
pub mod History
pub mod Lifecycle
pub mod Refinement
pub mod Fenced
pub mod Counted
use arbiter_distributed_sche.Base.{
  Bool, List, Option, String, false, if◌then◌else◌, ltb, none, some, str_eq, subst, true, ℕ, ◌+◌,
  ◌^◌, ◌≡◌,
}
use arbiter_distributed_sche.Base.Int.{ℤ}

-- Task statuses. `other` is any text that is none of the named ones: no row holds it
-- (tasks_status_check), but a report may.
pub data TaskStatus : Type 0 where
  pending scheduled running succeeded failed orphaned cancelled : TaskStatus
  other : String → TaskStatus

-- The texts are equal exactly when the statuses are.
unfoldable pub same_status : TaskStatus → TaskStatus → Bool
same_status pending pending = true
same_status scheduled scheduled = true
same_status running running = true
same_status succeeded succeeded = true
same_status failed failed = true
same_status orphaned orphaned = true
same_status cancelled cancelled = true
same_status (other s) (other t) = str_eq s t
same_status _ _ = false

pub data SchedulingPolicy : Type 0 where
  bin_pack spread : SchedulingPolicy
  other_policy : String → SchedulingPolicy

pub data NodeStatus : Type 0 where
  unknown ready not_ready dead cordoned : NodeStatus

unfoldable pub same_node_status : NodeStatus → NodeStatus → Bool
same_node_status unknown unknown = true
same_node_status ready ready = true
same_node_status not_ready not_ready = true
same_node_status dead dead = true
same_node_status cordoned cordoned = true
same_node_status _ _ = false

pub data EntityType : Type 0 where
  node_entity job_entity task_entity leader_entity : EntityType

pub data EventType : Type 0 where
  node_registered node_not_ready node_recovered node_dead node_cordoned : EventType
  node_scaled_up node_scaled_down job_submitted task_scheduled task_running : EventType
  task_succeeded task_failed task_orphaned task_requeued task_retry_scheduled : EventType
  leader_elected : EventType

-- A string map: Go's `map[string]string`, keys without repetition.
abbrev pub Labels : Type 0
Labels = List (String × String)

-- Times are nanoseconds since 1970, durations are nanoseconds.
pub record Job : Type 0 where
  pub id : String
  pub name : String
  pub image : String
  pub command : List String
  pub cpu_request_millicores : ℤ
  pub mem_request_mb : ℤ
  pub replicas : ℤ
  pub retry_limit : ℤ
  pub scheduling_policy : SchedulingPolicy
  pub constraints : Labels
  pub created_at : ℕ

pub record Task : Type 0 where
  pub id : String
  pub job_id : String
  pub status : TaskStatus
  pub assigned_node_id : Option String
  pub assigned_epoch : Option ℕ
  pub retries_used : ℕ
  pub exit_code : Option ℤ
  pub last_error : Option String
  pub created_at : ℕ
  pub scheduled_at : Option ℕ
  pub started_at : Option ℕ
  pub finished_at : Option ℕ
  pub next_retry_at : Option ℕ

pub record Node : Type 0 where
  pub id : String
  pub hostname : String
  pub address : String
  pub cpu_capacity_millicores : ℤ
  pub mem_capacity_mb : ℤ
  pub labels : Option Labels
  pub status : NodeStatus
  pub epoch : ℕ
  pub last_heartbeat_at : Option ℕ
  pub created_at : ℕ

pub record LeaderLease : Type 0 where
  pub leader_id : String
  pub leader_addr : String
  pub epoch : ℤ
  pub acquired_at : ℕ
  pub expires_at : ℕ

-- A message is kept as the parts that `fmt.Sprintf` puts together.
pub data Part : Type 0 where
  text : String → Part
  number : ℕ → Part
  integer : ℤ → Part

pub record Event : Type 0 where
  pub id : ℕ
  pub entity_type : EntityType
  pub entity_id : String
  pub event_type : EventType
  pub message : List Part
  pub created_at : ℕ

-- The tables. `next_event_id` is the sequence behind events.id.
pub record Db : Type 0 where
  pub nodes : List Node
  pub jobs : List Job
  pub tasks : List Task
  pub events : List Event
  pub next_event_id : ℕ
  pub lease : Option LeaderLease

pub data Error : Type 0 where
  replicas_below_one job_not_found task_not_found stale_task_report node_not_found : Error
  cannot_transition unsupported_status unexpected_row_count : Error
  identity_required ttl_not_positive lease_row_missing : Error
  -- A CHECK constraint or the range of a BIGINT column refuses the row.
  check_violation out_of_range : Error

pub data Result (A : Type 0) : Type 0 where
  ok : A → Result A
  err : Error → Result A

-- A transaction in progress.
abbrev pub Tx : Type 0 → Type 0
Tx A = Db → Result (A × Db)

abbrev pub and_then : {A B : Type 0} → Result (A × Db) → (A → Tx B) → Result (B × Db)
and_then (ok (a, db)) f = f a db
and_then (err e) f = err e

infixl 5 ◌>>=◌ ◌>>◌
abbrev pub ◌>>=◌ : {A B : Type 0} → Tx A → (A → Tx B) → Tx B
◌>>=◌ m f db = and_then (m db) f

abbrev pub ◌>>◌ : {B : Type 0} → Tx (Unit {0}) → Tx B → Tx B
m >> k = m >>= λ _. k

abbrev pub pure : {A : Type 0} → A → Tx A
pure a db = ok (a, db)

abbrev pub throw : {A : Type 0} → Error → Tx A
throw e db = err e

abbrev pub get : Tx Db
get db = ok (db, db)

abbrev pub modify : (Db → Db) → Tx (Unit {0})
modify f db = ok (tt, f db)

abbrev pub guard : Bool → Error → Tx (Unit {0})
guard c e db = if c then ok (tt, db) else err e

abbrev pub or_throw : {A : Type 0} → Option A → Error → Tx A
or_throw none e db = err e
or_throw (some a) e db = ok (a, db)

-- `Q` holds of the result and of the database that the transaction leaves, if it succeeds.
abbrev pub Ensures : {A : Type 0} → (A → Db → Type 0) → Result (A × Db) → Type 0
Ensures Q (ok (a, db)) = Q a db
Ensures Q (err e) = Unit

pub bind-Ensures :
    {A B : Type 0} (R : A → Db → Type 0) (Q : B → Db → Type 0) (r : Result (A × Db)) (f : A → Tx B)
    → Ensures R r
    → ((a : A) (db : Db) → R a db → Ensures Q (f a db))
    → Ensures Q (and_then r f)
bind-Ensures R Q (ok (a, db)) f h k = k a db h
bind-Ensures R Q (err e) f h k = tt

pub Ensures-map :
    {A : Type 0} (R Q : A → Db → Type 0) (r : Result (A × Db))
    → ((a : A) (db : Db) → R a db → Q a db)
    → Ensures R r
    → Ensures Q r
Ensures-map R Q (ok (a, db)) k h = k a db h
Ensures-map R Q (err e) k h = tt

pub Ensures-ok :
    {A : Type 0} (Q : A → Db → Type 0) {r : Result (A × Db)} {a : A} {db : Db}
    → Ensures Q r
    → r ≡ ok (a, db)
    → Q a db
Ensures-ok Q h e = subst (Ensures Q) e h

-- The database after `Begin … Commit`, or after the rollback of a failure.
abbrev pub committed : {A : Type 0} → Db → Result (A × Db) → Db
committed db (ok (a, db')) = db'
committed db (err e) = db

-- `epoch + 1` in a BIGINT column: the statement fails past its range.
unfoldable pub bump_epoch : ℕ → Tx (Unit {0})
bump_epoch e = guard (ltb (e + 1) (2 ^ 63)) out_of_range

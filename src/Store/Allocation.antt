-- ===== src/Store/Allocation.antt =====
-- internal/store/jobs_tasks.go: the resources that scheduled and running tasks take on a node.
use arbiter_distributed_sche.Base.{
  Bool, List, Option, String, [], coalesce, false, holds_text, if◌then◌else◌, none, order_by,
  select, some, suc, true, ℕ, ◌&&◌, ◌∷◌,
}
use arbiter_distributed_sche.Base.Int.{is_int64, pos, ℤ, ◌+ℤ◌}
use arbiter_distributed_sche.Store.{
  Db, Task, TaskStatus, Tx, get, guard, out_of_range, pure, running, same_status, scheduled, ◌>>=◌,
  ◌>>◌,
}
use arbiter_distributed_sche.Store.Tasks.{TaskWithJob, join_jobs}

pub record NodeAllocation : Type 0 where
  pub cpu_millicores : ℤ
  pub memory_mb : ℤ

-- `status IN ('scheduled', 'running')`
unfoldable pub consumes : TaskStatus → Bool
consumes scheduled = true
consumes running = true
consumes _ = false

-- `t.assigned_node_id = $1 AND t.status IN ('scheduled', 'running')`
unfoldable pub is_on : String → Task → Bool
unfolding consumes
is_on node_id t = holds_text t.assigned_node_id node_id && consumes t.status

-- `COALESCE(SUM(…), 0)` of both columns. A SUM of BIGINTs is a NUMERIC, which does not overflow.
unfoldable pub sum_requests : List TaskWithJob → NodeAllocation
sum_requests [] = record { cpu_millicores = pos 0; memory_mb = pos 0 }
sum_requests (t ∷ ts) =
    let rest = sum_requests ts in
    record {
      cpu_millicores = t.cpu_request_millicores +ℤ rest.cpu_millicores;
      memory_mb = t.mem_request_mb +ℤ rest.memory_mb;
    }

-- The sums over the tasks on a node.
unfoldable pub allocation_of : Db → String → NodeAllocation
unfolding is_on sum_requests join_jobs
allocation_of db node_id = sum_requests (join_jobs db.jobs (select (is_on node_id) db.tasks))

-- The sums can be scanned into int64 fields.
unfoldable pub is_scannable : NodeAllocation → Bool
is_scannable a = is_int64 a.cpu_millicores && is_int64 a.memory_mb

-- `GetNodeAllocation`
unfoldable pub get_node_allocation : String → Tx NodeAllocation
unfolding allocation_of is_scannable
get_node_allocation node_id = do
  db ← get
  guard (is_scannable (allocation_of db node_id)) out_of_range
  pure (allocation_of db node_id)

-- Every group of the query can be scanned. A group is named by a task of it.
unfoldable pub all_scannable : Db → List Task → Bool
unfolding allocation_of is_scannable consumes
all_scannable db [] = true
all_scannable db (t ∷ ts) =
    (if consumes t.status
      then is_scannable (allocation_of db (coalesce t.assigned_node_id ""))
      else true)
    && all_scannable db ts

-- `GetNodeAllocations`: the map, in which a node without tasks reads as zero.
unfoldable pub get_node_allocations : Tx (String → NodeAllocation)
unfolding all_scannable
get_node_allocations = do
  db ← get
  guard (all_scannable db db.tasks) out_of_range
  pure (allocation_of db)

unfoldable pub is_scheduled_on : String → Task → Bool
is_scheduled_on node_id t = holds_text t.assigned_node_id node_id && same_status t.status scheduled

-- `NULLS FIRST`
abbrev nulls_first : Option ℕ → ℕ
nulls_first none = 0
nulls_first (some n) = suc n

-- `ListScheduledTasksForNode`: `scheduled_at ASC NULLS FIRST, created_at ASC`, as two stable sorts.
unfoldable pub list_scheduled_tasks_for_node : String → Db → List TaskWithJob
unfolding is_scheduled_on same_status join_jobs
list_scheduled_tasks_for_node node_id db = join_jobs db.jobs (
    order_by (λ t. nulls_first t.scheduled_at)
      (order_by (λ t. t.created_at) (select (is_scheduled_on node_id) db.tasks)))

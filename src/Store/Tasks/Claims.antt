-- ===== src/Store/Tasks/Claims.antt =====
-- internal/store/jobs_tasks.go: what `ClaimPendingTasksForScheduling` hands to the scheduler.
use arbiter_distributed_sche.Base.{Bool, IsIn, String, false, some, true, ℕ, ◌≡◌}
use arbiter_distributed_sche.Store.{Db, Task, pending}
use arbiter_distributed_sche.Store.Tasks.{TaskWithJob, is_due, join_job}

-- What a claimed task is: the join of a row that meets the query's conditions with its job.
pub record IsClaim (locked : String → Bool) (now : ℕ) (db : Db) (claim : TaskWithJob) : Type 0 where
  pub t : Task
  pub row : IsIn t db.tasks
  pub status : t.status ≡ pending
  pub due : is_due now t.next_retry_at ≡ true
  pub unlocked : locked t.id ≡ false
  pub joined : join_job db.jobs t ≡ some claim

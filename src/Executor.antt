-- ===== src/Executor.antt =====
-- internal/executor/executor.go: the containers of a worker's tasks. Docker is a parameter: a state
-- of its own, and what it answers to each request.
pub mod Exits
pub mod Tracking
use Prim.Native.String.{slice}
use arbiter_distributed_sche.Base.{
  Bool, List, Option, String, [], coalesce, false, find, if◌then◌else◌, inl, inr, is_some, ltb, not,
  select, str_eq, zero, ◌%◌, ◌-◌, ◌==◌, ◌^◌, ◌∷◌,
}
use arbiter_distributed_sche.Base.Int.{negsuc, pos, ℤ}
use arbiter_distributed_sche.Base.Text.{str_append}
use arbiter_distributed_sche.Docker.{
  Answer, DockerError, Try, answered, bad_status, is_refusal, no_answer, no_response,
}
use arbiter_distributed_sche.Docker.Workers.{created_id}
use arbiter_distributed_sche.Store.{Labels, TaskStatus, failed, succeeded}
use arbiter_distributed_sche.Worker.Agent.{TaskSpec}

-- The body of a create request.
pub record TaskContainer : Type 0 where
  pub image : String
  pub env : List String
  pub labels : Labels
  pub cmd : List String

-- The requests of the executor. A wait answers with the `StatusCode` of its body, if it has one.
pub record TaskEngine (D : Type 0) : Type 1 where
  pub create : String → TaskContainer → D → Answer String × D
  pub start : String → D → Answer (Unit {0}) × D
  pub remove : String → D → D
  pub kill : String → D → D
  pub wait : String → D → Answer ℤ × D

-- The text of an error of `Result`.
pub data RunError : Type 0 where
  no_error is_canceled wait_failed : RunError
  exit_code_of : ℤ → RunError
  not_started : DockerError → RunError

-- `Result`
pub record RunResult : Type 0 where
  pub task_id : String
  pub run_id : String
  pub status : TaskStatus
  pub exit_code : ℤ
  pub error : RunError

-- `containerName`
unfoldable pub container_name : String → String
container_name task_id = str_append "arbiter-task-" task_id

-- `containerName(spec.TaskID) + "-" + runID[:8]`
unfoldable pub run_name : String → String → String
unfolding container_name
run_name task_id run_id = str_append (container_name task_id) (str_append "-" (slice run_id 0 8))

-- `int32(waited.StatusCode)`
unfoldable pub to_int32 : ℤ → ℤ
to_int32 (pos n) = let m = n % 2 ^ 32 in if ltb m (2 ^ 31) then pos m else negsuc (2 ^ 32 - 1 - m)
to_int32 (negsuc n) =
    let m = n % 2 ^ 32 in if ltb m (2 ^ 31) then negsuc m else pos (2 ^ 32 - 1 - m)

-- `createBody`. `digits` is `%d`.
unfoldable pub task_container : (ℤ → String) → TaskSpec → String → TaskContainer
task_container digits spec run_id = record {
  image = spec.image;
  env = str_append "ARBITER_TASK_ID=" spec.task_id ∷ str_append "ARBITER_RUN_ID=" run_id ∷ [];
  labels =
      ("arbiter.task_id", spec.task_id)
      ∷ ("arbiter.run_id", run_id)
      ∷ ("arbiter.managed", "true")
      ∷ ("arbiter.cpu_request_mc", digits spec.cpu_request_millicores)
      ∷ ("arbiter.mem_request_mb", digits spec.mem_request_mb)
      ∷ [];
  cmd = spec.command;
}

-- `waited.StatusCode`: zero where the body has none.
unfoldable pub waited_code : Option ℤ → ℤ
waited_code body = coalesce body (pos 0)

-- The result of a container that has exited.
unfoldable pub exit_result : String → String → ℤ → RunResult
exit_result task_id run_id (pos zero) = record {
  task_id = task_id;
  run_id = run_id;
  status = succeeded;
  exit_code = pos 0;
  error = no_error;
}
exit_result task_id run_id code = record {
  task_id = task_id;
  run_id = run_id;
  status = failed;
  exit_code = code;
  error = exit_code_of code;
}

unfoldable pub failed_result : String → String → ℤ → RunError → RunResult
failed_result task_id run_id code error = record {
  task_id = task_id;
  run_id = run_id;
  status = failed;
  exit_code = code;
  error = error;
}

-- Whether the engine answers that the name is taken.
unfoldable pub is_conflict : Answer String → Bool
is_conflict no_answer = false
is_conflict (answered status body) = status == 409

module _ {D : Type 0} (engine : TaskEngine D) where
  -- A conflict is answered by a removal and one more attempt.
  unfoldable pub create_twice : String → TaskContainer → D → Answer String × D
  unfolding is_conflict
  create_twice name body d =
      let first = engine.create name body d in
      if is_conflict first.0 then engine.create name body (engine.remove name first.1) else first

  -- A container that does not start is removed.
  unfoldable pub after_task_start :
      String → String → Answer (Unit {0}) × D → Try (String × String) × D
  after_task_start id run_id (no_answer, d) = (inl no_response, engine.remove id d)
  after_task_start id run_id (answered status body, d) =
      if is_refusal status
      then (inl (bad_status status), engine.remove id d)
      else (inr (id, run_id), d)

  unfoldable pub start_task_container : String → Try String × D → Try (String × String) × D
  unfolding after_task_start
  start_task_container run_id (inl e, d) = (inl e, d)
  start_task_container run_id (inr id, d) = after_task_start id run_id (engine.start id d)

  -- `createAndStart`: the container and the run, under a fresh run id.
  unfoldable pub create_and_start : (ℤ → String) → TaskSpec → String → D → Try (String × String) × D
  unfolding create_twice start_task_container task_container run_name
  create_and_start digits spec run_id d =
      let name = run_name spec.task_id run_id in
      let answer = create_twice name (task_container digits spec run_id) (engine.remove name d) in
      start_task_container run_id (created_id answer.0, answer.1)

  -- The end of `waitForExit`, by whether the run has been cancelled.
  unfoldable pub exit_of : Bool → String → String → String → Answer ℤ × D → RunResult × D
  unfolding exit_result failed_result waited_code to_int32
  exit_of is_stopped id task_id run_id (no_answer, d) =
      if is_stopped
      then (failed_result task_id run_id (pos 137) is_canceled, engine.kill id d)
      else (failed_result task_id run_id (pos 1) wait_failed, d)
  exit_of is_stopped id task_id run_id (answered status body, d) =
      (exit_result task_id run_id (to_int32 (waited_code body)), d)

  -- `waitForExit`
  unfoldable pub wait_for_exit : Bool → String → String → String → D → RunResult × D
  unfolding exit_of
  wait_for_exit is_stopped id task_id run_id d =
      exit_of is_stopped id task_id run_id (engine.wait id d)

  -- The removals of `StopAll`, by the tasks that are running.
  unfoldable pub remove_running : List String → D → D
  unfolding container_name
  remove_running [] d = d
  remove_running (id ∷ ids) d = remove_running ids (engine.remove (container_name id) d)

-- The tasks that have a container, or are about to.
pub record Executor : Type 0 where
  pub running_ids : List String

-- `IsRunning`
unfoldable pub is_running_task : String → Executor → Bool
is_running_task id e = is_some (find (str_eq id) e.running_ids)

-- `delete(e.running, taskID)` of `finish`
unfoldable pub untracked : String → Executor → Executor
untracked id e = record { running_ids = select (λ j. not (str_eq j id)) e.running_ids }

-- What `Start` comes to: nothing, a container to wait for, or a failure that `onDone` is told.
pub data Launch : Type 0 where
  already_running : Launch
  launched_as : String × String → Launch
  not_launched : RunResult → Launch

unfoldable pub launch_of : TaskSpec → Executor → Try (String × String) → Launch × Executor
unfolding untracked failed_result
launch_of spec e (inl error) = (
  not_launched (failed_result spec.task_id "" (pos 1) (not_started error)),
  untracked spec.task_id e,
)
launch_of spec e (inr ids) = (launched_as ids, e)

-- `Start`
unfoldable pub start_task :
    {D : Type 0}
    → TaskEngine D
    → (ℤ → String)
    → TaskSpec
    → String
    → Executor
    → D
    → Launch × Executor × D
unfolding is_running_task launch_of create_and_start
start_task engine digits spec run_id e d =
    let tracked : Executor = record { running_ids = spec.task_id ∷ e.running_ids } in
    let created = create_and_start engine digits spec run_id d in
    let launch = launch_of spec tracked created.0 in
    if is_running_task spec.task_id e
    then (already_running, e, d)
    else (launch.0, launch.1, created.1)

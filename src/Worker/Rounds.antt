-- ===== src/Worker/Rounds.antt =====
-- cmd/worker/main.go: the rounds of `runHeartbeatLoop`, and what a worker reports of its tasks. The
-- scheduler and Docker are parameters with a state of their own.
pub mod Epochs
pub mod Settling
use arbiter_distributed_sche.Base.{Bool, List, String, [], if◌then◌else◌, inl, inr, ℕ, ◌⊎◌}
use arbiter_distributed_sche.Base.Int.{pos, ℤ}
use arbiter_distributed_sche.Executor.{
  Executor, Launch, RunError, RunResult, TaskEngine, is_running_task, not_launched, remove_running,
  start_task, untracked,
}
use arbiter_distributed_sche.Redirects.{CallError}
use arbiter_distributed_sche.Rpc.Heartbeat.{HeartbeatRequest, HeartbeatResponse, TaskAssignment}
use arbiter_distributed_sche.Rpc.Nodes.{RegisterNodeRequest, RegisterNodeResponse}
use arbiter_distributed_sche.Rpc.Reports.{TaskStatusUpdate}
use arbiter_distributed_sche.Store.{running}
use arbiter_distributed_sche.Worker.Agent.{
  Agent, TaskSpec, allocated_resources, forget, handle_assignments, set_identity,
}
use arbiter_distributed_sche.Worker.Dialer.{Dialer}
use arbiter_distributed_sche.Worker.Retry.{register_with_retry, with_leader_retry}

-- The calls of the scheduler: what the replica at an address answers. A heartbeat also carries the
-- resources that are allocated.
pub record SchedulerCalls (S : Type 0) : Type 0 where
  pub heartbeat : HeartbeatRequest → ℤ × ℤ → String → S → (CallError ⊎ HeartbeatResponse) × S
  pub register : RegisterNodeRequest → String → S → (CallError ⊎ RegisterNodeResponse) × S
  pub report : TaskStatusUpdate → String → S → (CallError ⊎ Unit {0}) × S

-- A worker, its executor, and the states of Docker and of the schedulers.
pub record Process (S D : Type 0) : Type 0 where
  pub agent : Agent
  pub dialer : Dialer
  pub executor : Executor
  pub docker : D
  pub cluster : S

-- The request of a heartbeat.
unfoldable pub heartbeat_request : Agent → HeartbeatRequest
heartbeat_request a = record { node_id = a.node_id; epoch = a.epoch; task_updates = [] }

-- The report of `handleTaskDone`, under the identity of the moment. `error_text` is the text of an
-- error.
unfoldable pub update_of : (RunError → String) → RunResult → Agent → TaskStatusUpdate
update_of error_text r a = record {
  task_id = r.task_id;
  status = r.status;
  exit_code = r.exit_code;
  error = error_text r.error;
  node_id = a.node_id;
  epoch = a.epoch;
}

-- The report of `startAssignedTask`.
unfoldable pub running_update : TaskSpec → Agent → TaskStatusUpdate
running_update spec a = record {
  task_id = spec.task_id;
  status = running;
  exit_code = pos 0;
  error = "";
  node_id = a.node_id;
  epoch = a.epoch;
}

-- The assignments that an answer to a heartbeat brings.
unfoldable pub assignments_in : CallError ⊎ HeartbeatResponse → List TaskAssignment
assignments_in (inl e) = []
assignments_in (inr r) = r.new_assignments

module _ {S D : Type 0} (dial : String → Bool) (cluster : SchedulerCalls S)
    (engine : TaskEngine D) where
  -- What a call leaves of the process.
  unfoldable pub called : {R : Type 0} → R × Dialer × S → Process S D → R × Process S D
  called (r, d, s) p = (r, record p { dialer = d; cluster = s })

  -- A report, through `withLeaderRetry`. An error is only logged.
  unfoldable pub send_report : TaskStatusUpdate → Process S D → Process S D
  unfolding called with_leader_retry
  send_report u p = (called (with_leader_retry dial (cluster.report u) p.dialer p.cluster) p).1

  -- `handleTaskDone`
  unfoldable pub handle_task_done : (RunError → String) → RunResult → Process S D → Process S D
  unfolding forget send_report update_of
  handle_task_done error_text r p =
      let freed = record p { agent = forget r.task_id p.agent } in
      send_report (update_of error_text r freed.agent) freed

  -- `finish`, at the end of a wait.
  unfoldable pub finish : (RunError → String) → RunResult → Process S D → Process S D
  unfolding untracked handle_task_done
  finish error_text r p =
      handle_task_done error_text r (record p { executor = untracked r.task_id p.executor })

  -- What `startAssignedTask` does once `Start` has returned. A failure was told to `onDone` first.
  unfoldable pub after_launch : (RunError → String) → TaskSpec → Launch → Process S D → Process S D
  unfolding handle_task_done forget
  after_launch error_text spec (not_launched r) p =
      let told = handle_task_done error_text r p in
      record told { agent = forget spec.task_id told.agent }
  after_launch error_text spec _ p = p

  -- `startAssignedTask`
  unfoldable pub start_assigned_task :
      (RunError → String) → (ℤ → String) → TaskSpec → String → Process S D → Process S D
  unfolding send_report running_update start_task after_launch
  start_assigned_task error_text digits spec run_id p =
      let told = send_report (running_update spec p.agent) p in
      let launch = start_task engine digits spec run_id told.executor told.docker in
      after_launch error_text spec launch.0 (record told { executor = launch.1; docker = launch.2 })

  -- `StopAll`. The waits end on their own, each with `finish`.
  unfoldable pub stop_all : Process S D → Process S D
  unfolding remove_running
  stop_all p = record p { docker = remove_running engine p.executor.running_ids p.docker }

  -- `a.specs = make(map[string]executor.TaskSpec)`
  unfoldable pub cleared : Process S D → Process S D
  cleared p = record p { agent = record p.agent { specs = [] } }

  unfoldable pub after_re_register : (CallError ⊎ RegisterNodeResponse) × Process S D → Process S D
  unfolding set_identity
  after_re_register (inl e, p) = p
  after_re_register (inr r, p) = record p { agent = set_identity r.node_id r.epoch p.agent }

  -- The registration after an epoch was refused. `is_done` is the worker's shutdown.
  unfoldable pub re_register : (ℕ → Bool) → RegisterNodeRequest → Process S D → Process S D
  unfolding called register_with_retry after_re_register
  re_register is_done req p =
      after_re_register
        (called (register_with_retry dial (cluster.register req) is_done p.dialer p.cluster) p)

  -- The heartbeat of a round.
  unfoldable pub send_heartbeat : Process S D → (CallError ⊎ HeartbeatResponse) × Process S D
  unfolding called with_leader_retry heartbeat_request allocated_resources
  send_heartbeat p =
      let allocated = allocated_resources p.executor.running_ids p.agent.specs in
      called
        (with_leader_retry dial (cluster.heartbeat (heartbeat_request p.agent) allocated) p.dialer
          p.cluster)
        p

  -- `handleAssignments`, and the specs that it starts.
  unfoldable pub take_assignments : List TaskAssignment → Process S D → Process S D × List TaskSpec
  unfolding handle_assignments is_running_task
  take_assignments assignments p =
      let handled = handle_assignments (λ id. is_running_task id p.executor) assignments p.agent in
      (record p { agent = handled.0 }, handled.1)

  -- The round, once the heartbeat has been answered.
  unfoldable pub answered_round :
      (ℕ → Bool)
      → RegisterNodeRequest
      → (CallError ⊎ HeartbeatResponse) × Process S D
      → Process S D × List TaskSpec
  unfolding re_register cleared stop_all take_assignments
  answered_round is_done req (inl e, p) = (p, [])
  answered_round is_done req (inr r, p) =
      if r.epoch_invalid
      then (re_register is_done req (cleared (stop_all p)), [])
      else take_assignments r.new_assignments p

  -- A round of `runHeartbeatLoop`: the worker that it leaves, and the specs that are started.
  unfoldable pub heartbeat_round :
      (ℕ → Bool) → RegisterNodeRequest → Process S D → Process S D × List TaskSpec
  unfolding send_heartbeat answered_round
  heartbeat_round is_done req p = answered_round is_done req (send_heartbeat p)

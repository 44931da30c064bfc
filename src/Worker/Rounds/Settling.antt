-- ===== src/Worker/Rounds/Settling.antt =====
-- cmd/worker/main.go: what becomes of a task that a worker starts.
use arbiter_distributed_sche.Base.{
  Bool, Bool-cases, List, String, [], ap, false, inl, inr, not, refl, select, str_eq, true, ◌∙◌,
  ◌∷◌, ◌≡◌, ◌⊎◌,
}
use arbiter_distributed_sche.Base.Int.{ℤ}
use arbiter_distributed_sche.Docker.{Try}
use arbiter_distributed_sche.Executor.{
  Launch, RunError, RunResult, TaskEngine, already_running, create_and_start, is_running_task,
  launched_as, not_launched, start_task,
}
use arbiter_distributed_sche.Executor.Tracking.{IsSettled, start_task-IsSettled}
use arbiter_distributed_sche.Worker.Agent.{Agent, TaskSpec, forget, is_tracked}
use arbiter_distributed_sche.Worker.Dialer.{Dialer}
use arbiter_distributed_sche.Worker.Retry.{with_leader_retry}
use arbiter_distributed_sche.Worker.Rounds.{
  Process, SchedulerCalls, after_launch, called, handle_task_done, running_update, send_report,
  start_assigned_task, update_of,
}

forgotten_absent :
    (id : String) (specs : List TaskSpec)
    → is_tracked id (select (λ s. not (str_eq s.task_id id)) specs) ≡ false
unfolding is_tracked
forgotten_absent id [] = refl
forgotten_absent id (s ∷ specs) = elim (Bool-cases (str_eq s.task_id id)) [
  | inl own ↦ rw own (forgotten_absent id specs)
  | inr other ↦ rw other (rw other (forgotten_absent id specs))
]

forget-absent : (id : String) (a : Agent) → is_tracked id (forget id a).specs ≡ false
unfolding forget
forget-absent id a = forgotten_absent id a.specs

-- The task has a container, or is on its way to one, or the worker has given it up.
abbrev pub IsPlaced : {S D : Type 0} → String → Process S D → Type 0
IsPlaced id p =
    (is_running_task id p.executor ≡ true)
    ⊎ ((is_running_task id p.executor ≡ false) × (is_tracked id p.agent.specs ≡ false))

module _ {S D : Type 0} (dial : String → Bool) (cluster : SchedulerCalls S) (engine : TaskEngine D)
    (error_text : RunError → String) where
  called-executor :
      {R : Type 0} (x : R × Dialer × S) (p : Process S D)
      → (called dial cluster engine x p).1.executor ≡ p.executor
  unfolding called
  called-executor (r, d, s) p = refl

  handle_task_done-executor :
      (r : RunResult) (p : Process S D)
      → (handle_task_done dial cluster engine error_text r p).executor ≡ p.executor
  unfolding handle_task_done send_report
  handle_task_done-executor r p =
      let freed : Process S D = record p { agent = forget r.task_id p.agent } in
      let u = update_of error_text r freed.agent in
      called-executor (with_leader_retry dial (cluster.report u) p.dialer p.cluster) freed

  after_launch-IsPlaced :
      (spec : TaskSpec) (run_id : String) (created : Try (String × String)) (launch : Launch)
      (p : Process S D)
      → IsSettled engine spec run_id created launch p.executor
      → IsPlaced spec.task_id (after_launch dial cluster engine error_text spec launch p)
  unfolding after_launch
  after_launch-IsPlaced spec run_id created already_running p h = inl h
  after_launch-IsPlaced spec run_id created (launched_as ids) p h = inl h.0
  after_launch-IsPlaced spec run_id created (not_launched r) p h =
      let told = handle_task_done dial cluster engine error_text r p in
      inr (
        ap (is_running_task spec.task_id) (handle_task_done-executor r p) ∙ h.0,
        forget-absent spec.task_id told.agent,
      )

  -- Whatever the scheduler and Docker answer, once `startAssignedTask` has returned, the executor
  -- tracks the task, or neither the executor nor the agent does, so that no later heartbeat counts
  -- its request.
  pub start_assigned_task-IsPlaced :
      (digits : ℤ → String) (spec : TaskSpec) (run_id : String) (p : Process S D)
      → IsPlaced spec.task_id
          (start_assigned_task dial cluster engine error_text digits spec run_id p)
  unfolding start_assigned_task
  start_assigned_task-IsPlaced digits spec run_id p =
      let told = send_report dial cluster engine (running_update spec p.agent) p in
      let launch = start_task engine digits spec run_id told.executor told.docker in
      after_launch-IsPlaced spec run_id (create_and_start engine digits spec run_id told.docker).0
        launch.0 (record told { executor = launch.1; docker = launch.2 })
        (start_task-IsSettled engine digits spec run_id told.executor told.docker).0

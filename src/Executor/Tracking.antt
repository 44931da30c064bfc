-- ===== src/Executor/Tracking.antt =====
-- internal/executor/executor.go: which tasks the executor tracks once `Start` has returned.
use arbiter_distributed_sche.Base.{
  Bool-cases, List, Option, String, [], ap, arith, eq_iff, eq_refl, false, find, if◌then◌else◌, inl,
  inr, is_some, not, refl, select, some, str_eq, sym, true, true≢false, ℕ, ◌<◌, ◌∷◌, ◌≡◌,
}
use arbiter_distributed_sche.Base.Int.{pos, ℤ}
use arbiter_distributed_sche.Docker.{Answer, DockerError, Try, answered, is_refusal, no_answer}
use arbiter_distributed_sche.Docker.Workers.{created_id}
use arbiter_distributed_sche.Executor.{
  Executor, Launch, TaskEngine, after_task_start, already_running, create_and_start, create_twice,
  failed_result, is_running_task, launch_of, launched_as, not_launched, not_started, run_name,
  start_task, start_task_container, task_container, untracked,
}
use arbiter_distributed_sche.Store.{failed}
use arbiter_distributed_sche.Worker.Agent.{TaskSpec}

untracked_absent :
    (id : String) (ids : List String)
    → is_some (find (str_eq id) (select (λ j. not (str_eq j id)) ids)) ≡ false
untracked_absent id [] = refl
untracked_absent id (j ∷ js) = ground (arith, eq_iff j id, eq_iff id j, untracked_absent id js)

module _ {D : Type 0} (engine : TaskEngine D) where
  -- Docker has answered the start of the container with a success.
  abbrev pub HasStarted : String → Type 0
  HasStarted id =
      (before : D) × (status : ℕ) × (body : Option (Unit {0})) × ((engine.start id before).0
        ≡ answered status body)
      × (status < 300)

  -- Where ids are returned, their container has started, in this run.
  abbrev pub HasBegun : String → Try (String × String) → Type 0
  HasBegun run_id (inl e) = Unit
  HasBegun run_id (inr ids) = HasStarted ids.0 × (ids.1 ≡ run_id)

  after_task_start-HasBegun :
      (id run_id : String) (before : D) (x : Answer (Unit {0}) × D)
      → (engine.start id before).0 ≡ x.0
      → HasBegun run_id (after_task_start engine id run_id x).0
  unfolding after_task_start
  after_task_start-HasBegun id run_id before (no_answer, d) e = tt
  after_task_start-HasBegun id run_id before (answered status body, d) e =
      elim (Bool-cases (is_refusal status)) [
        | inl bad ↦ rw bad tt
        | inr good ↦ rw good ((before, status, body, e, accepted status good), refl)
      ]
    where
      accepted : (status : ℕ) → is_refusal status ≡ false → status < 300
      accepted status h = ground arith

  start_task_container-HasBegun :
      (run_id : String) (x : Try String × D)
      → HasBegun run_id (start_task_container engine run_id x).0
  unfolding start_task_container
  start_task_container-HasBegun run_id (inl e, d) = tt
  start_task_container-HasBegun run_id (inr id, d) =
      after_task_start-HasBegun id run_id d (engine.start id d) refl

  create_and_start-HasBegun :
      (digits : ℤ → String) (spec : TaskSpec) (run_id : String) (d : D)
      → HasBegun run_id (create_and_start engine digits spec run_id d).0
  unfolding create_and_start
  create_and_start-HasBegun digits spec run_id d =
      let name = run_name spec.task_id run_id in
      let answer =
        create_twice engine name (task_container digits spec run_id) (engine.remove name d) in
      start_task_container-HasBegun run_id (created_id answer.0, answer.1)

  -- What a launch leaves behind, by what `createAndStart` returned: a task that is tracked, with a
  -- container of this run that has started; or the failure of this task, untracked.
  abbrev pub IsSettled : TaskSpec → String → Try (String × String) → Launch → Executor → Type 0
  IsSettled spec run_id created already_running e = is_running_task spec.task_id e ≡ true
  IsSettled spec run_id created (launched_as ids) e =
      (is_running_task spec.task_id e ≡ true) × HasStarted ids.0 × (ids.1 ≡ run_id)
  IsSettled spec run_id created (not_launched r) e =
      (is_running_task spec.task_id e ≡ false)
      × (r.task_id ≡ spec.task_id)
      × (r.status ≡ failed)
      × (r.exit_code ≡ pos 1)
      × ((fault : DockerError) × (created ≡ inl fault) × (r.error ≡ not_started fault))

  launch_of-IsSettled :
      (spec : TaskSpec) (run_id : String) (ids : List String) (created : Try (String × String))
      → HasBegun run_id created
      → let launch = launch_of spec (record { running_ids = spec.task_id ∷ ids }) created in
        IsSettled spec run_id created launch.0 launch.1
  unfolding launch_of failed_result is_running_task untracked
  launch_of-IsSettled spec run_id ids (inl e) h =
      (untracked_absent spec.task_id (spec.task_id ∷ ids), refl, refl, refl, (e, refl, refl))
  launch_of-IsSettled spec run_id ids (inr c) (begun, same) = (
    ap (λ b. is_some (if b then some spec.task_id else find (str_eq spec.task_id) ids))
        (eq_refl spec.task_id),
    begun,
    same,
  )

  -- Whatever Docker answers, `Start` leaves the task tracked, and where it launches it, Docker has
  -- answered the start of its container with a success; or, where the container was not created or
  -- did not start, it tells `onDone` of a failure of this task, with exit code 1 and the error, and
  -- tracks it no longer. A task that is tracked is not started again, and Docker is not called for it.
  pub start_task-IsSettled :
      (digits : ℤ → String) (spec : TaskSpec) (run_id : String) (e : Executor) (d : D)
      → let x = start_task engine digits spec run_id e d in
        IsSettled spec run_id (create_and_start engine digits spec run_id d).0 x.0 x.1
        × (is_running_task spec.task_id e ≡ true → (x.0 ≡ already_running) × (x.1 ≡ e) × (x.2 ≡ d))
  unfolding start_task
  start_task-IsSettled digits spec run_id e d = elim (Bool-cases (is_running_task spec.task_id e)) [
    | inl tracked ↦ rw tracked (tracked, λ h. (refl, refl, refl))
    | inr fresh ↦ rw fresh (
      launch_of-IsSettled spec run_id e.running_ids (create_and_start engine digits spec run_id d).0
          (create_and_start-HasBegun digits spec run_id d),
      λ h. absurd (true≢false (sym h)),
    )
  ]

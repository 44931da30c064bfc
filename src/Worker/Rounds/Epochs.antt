-- ===== src/Worker/Rounds/Epochs.antt =====
-- cmd/worker/main.go: the tasks that a worker tracks over its rounds, and the registrations under
-- which they were assigned.
use arbiter_distributed_sche.Base.{
  All, All-append, All-map, Bool, Bool-cases, IsIn, List, String, [], ap, arith, inl, inr, not,
  refl, str_eq, subst, sym, true, ℕ, ◌++◌, ◌∙◌, ◌∷◌, ◌≡◌, ◌⊎◌,
}
use arbiter_distributed_sche.Base.Int.{ℤ}
use arbiter_distributed_sche.Base.Order.{All-select}
use arbiter_distributed_sche.Executor.{
  Launch, RunError, RunResult, TaskEngine, already_running, is_running_task, launched_as,
  not_launched, start_task, untracked,
}
use arbiter_distributed_sche.Redirects.{CallError}
use arbiter_distributed_sche.Rpc.Heartbeat.{HeartbeatResponse, TaskAssignment}
use arbiter_distributed_sche.Rpc.Nodes.{RegisterNodeRequest, RegisterNodeResponse}
use arbiter_distributed_sche.Rpc.Reports.{TaskStatusUpdate}
use arbiter_distributed_sche.Worker.Agent.{
  Agent, TaskSpec, allocated_resources, forget, handle_assignments, is_new, set_identity, spec_of,
  take_each,
}
use arbiter_distributed_sche.Worker.Dialer.{Dialer}
use arbiter_distributed_sche.Worker.Retry.{register_with_retry, with_leader_retry}
use arbiter_distributed_sche.Worker.Rounds.{
  Process, SchedulerCalls, after_launch, after_re_register, answered_round, assignments_in, called,
  cleared, finish, handle_task_done, heartbeat_request, heartbeat_round, re_register,
  running_update, send_heartbeat, send_report, start_assigned_task, stop_all, take_assignments,
  update_of,
}

IsIn-behind : {A : Type 0} (xs ys : List A) (x : A) → IsIn x ys → IsIn x (xs ++ ys)
IsIn-behind [] ys x i = i
IsIn-behind (z ∷ xs) ys x i = inr (IsIn-behind xs ys x i)

IsIn-before : {A : Type 0} (xs ys : List A) (x : A) → IsIn x xs → IsIn x (xs ++ ys)
IsIn-before [] ys x i = absurd i
IsIn-before (z ∷ xs) ys x (inl e) = inl e
IsIn-before (z ∷ xs) ys x (inr i) = inr (IsIn-before xs ys x i)

-- A spec of an assignment of the log that carried the epoch.
abbrev pub IsFrom : List TaskAssignment → ℕ → TaskSpec → Type 0
IsFrom log epoch s =
    (a : TaskAssignment) × IsIn a log × (spec_of a ≡ s) × (a.assigned_epoch ≡ epoch)

-- Each task that is tracked was assigned under the present epoch.
abbrev pub IsCurrent : List TaskAssignment → Agent → Type 0
IsCurrent log a = All (IsFrom log a.epoch) a.specs

IsFrom-more :
    (new log : List TaskAssignment) (epoch : ℕ) (s : TaskSpec)
    → IsFrom log epoch s
    → IsFrom (new ++ log) epoch s
IsFrom-more new log epoch s (a, i, e, q) = (a, IsIn-behind new log a i, e, q)

new_epoch :
    (is_running : String → Bool) (epoch : ℕ) (a : TaskAssignment) (specs : List TaskSpec)
    → is_new is_running epoch a specs ≡ true
    → a.assigned_epoch ≡ epoch
unfolding is_new
new_epoch is_running epoch a specs h = ground arith

module _ (log : List TaskAssignment) (is_running : String → Bool) (epoch : ℕ) where
  take_each-IsFrom :
      (others : List TaskAssignment) (specs : List TaskSpec)
      → All (λ a. IsIn a log) others
      → All (IsFrom log epoch) specs
      → All (IsFrom log epoch) (take_each is_running epoch others specs).0
  unfolding take_each
  take_each-IsFrom [] specs i h = h
  take_each-IsFrom (b ∷ others) specs i h = elim (Bool-cases (is_new is_running epoch b specs)) [
    | inl new ↦ rw new (
        take_each-IsFrom others (specs ++ spec_of b ∷ []) i.1 (
          All-append (IsFrom log epoch) specs (spec_of b ∷ []) h
            ((b, i.0, refl, new_epoch is_running epoch b specs new), tt)))
    | inr old ↦ rw old (take_each-IsFrom others specs i.1 h)
  ]

All-IsIn_front : {A : Type 0} (xs ys : List A) → All (λ x. IsIn x (xs ++ ys)) xs
All-IsIn_front [] ys = tt
All-IsIn_front (x ∷ xs) ys = (inl refl, All-map xs (λ y. inr) (All-IsIn_front xs ys))

forget-IsCurrent :
    (log : List TaskAssignment) (id : String) (a : Agent)
    → IsCurrent log a
    → IsCurrent log (forget id a)
unfolding forget
forget-IsCurrent log id a h =
    All-select (IsFrom log a.epoch) (λ s. not (str_eq s.task_id id)) a.specs h

module _ {S D : Type 0} (dial : String → Bool) (cluster : SchedulerCalls S)
    (engine : TaskEngine D) where
  -- The runs of a worker from its registration on, by its rounds, the starts of its tasks and the
  -- ends of its waits, in any order, with the assignments that have been delivered.
  pub data Runs : Process S D → List TaskAssignment → Type 0 where
    has_registered : {p : Process S D} → p.agent.specs ≡ [] → Runs p []
    beats :
        {p : Process S D} {log : List TaskAssignment} (is_done : ℕ → Bool)
        (req : RegisterNodeRequest)
        → Runs p log
        → Runs
            (heartbeat_round dial cluster engine is_done req p).0
            (assignments_in (send_heartbeat dial cluster engine p).0 ++ log)
    starts :
        {p : Process S D} {log : List TaskAssignment} (error_text : RunError → String)
        (digits : ℤ → String) (spec : TaskSpec) (run_id : String)
        → Runs p log
        → Runs (start_assigned_task dial cluster engine error_text digits spec run_id p) log
    ends :
        {p : Process S D} {log : List TaskAssignment} (error_text : RunError → String)
        (r : RunResult)
        → Runs p log
        → Runs (finish dial cluster engine error_text r p) log

  called-agent :
      {R : Type 0} (x : R × Dialer × S) (p : Process S D)
      → (called dial cluster engine x p).1.agent ≡ p.agent
  unfolding called
  called-agent (r, d, s) p = refl

  send_report-agent :
      (u : TaskStatusUpdate) (p : Process S D)
      → (send_report dial cluster engine u p).agent ≡ p.agent
  unfolding send_report
  send_report-agent u p =
      called-agent (with_leader_retry dial (cluster.report u) p.dialer p.cluster) p

  handle_task_done-agent :
      (error_text : RunError → String) (r : RunResult) (p : Process S D)
      → (handle_task_done dial cluster engine error_text r p).agent ≡ forget r.task_id p.agent
  unfolding handle_task_done
  handle_task_done-agent error_text r p =
      let freed : Process S D = record p { agent = forget r.task_id p.agent } in
      send_report-agent (update_of error_text r freed.agent) freed

  after_launch-IsCurrent :
      (log : List TaskAssignment) (error_text : RunError → String) (spec : TaskSpec)
      (launch : Launch) (p : Process S D)
      → IsCurrent log p.agent
      → IsCurrent log (after_launch dial cluster engine error_text spec launch p).agent
  unfolding after_launch
  after_launch-IsCurrent log error_text spec already_running p h = h
  after_launch-IsCurrent log error_text spec (launched_as ids) p h = h
  after_launch-IsCurrent log error_text spec (not_launched r) p h =
      forget-IsCurrent log spec.task_id (handle_task_done dial cluster engine error_text r p).agent
        (subst (IsCurrent log) (sym (handle_task_done-agent error_text r p))
          (forget-IsCurrent log r.task_id p.agent h))

  after_re_register-specs :
      (x : (CallError ⊎ RegisterNodeResponse) × Process S D)
      → (after_re_register dial cluster engine x).agent.specs ≡ x.1.agent.specs
  unfolding after_re_register set_identity
  after_re_register-specs (inl e, p) = refl
  after_re_register-specs (inr r, p) = refl

  no_specs-IsCurrent : (log : List TaskAssignment) (a : Agent) → a.specs ≡ [] → IsCurrent log a
  no_specs-IsCurrent log a e = subst (All (IsFrom log a.epoch)) (sym e) tt

  re_register-specs :
      (is_done : ℕ → Bool) (req : RegisterNodeRequest) (p : Process S D)
      → (re_register dial cluster engine is_done req p).agent.specs ≡ p.agent.specs
  unfolding re_register
  re_register-specs is_done req p =
      let answer = register_with_retry dial (cluster.register req) is_done p.dialer p.cluster in
      after_re_register-specs (called dial cluster engine answer p)
      ∙ ap (λ a. a.specs) (called-agent answer p)

  answered_round-IsCurrent :
      (log : List TaskAssignment) (is_done : ℕ → Bool) (req : RegisterNodeRequest)
      (x : (CallError ⊎ HeartbeatResponse) × Process S D)
      → IsCurrent log x.1.agent
      → IsCurrent
          (assignments_in x.0 ++ log)
          (answered_round dial cluster engine is_done req x).0.agent
  unfolding answered_round assignments_in take_assignments handle_assignments cleared
  answered_round-IsCurrent log is_done req (inl e, p) h = h
  answered_round-IsCurrent log is_done req (inr r, p) h = elim (Bool-cases r.epoch_invalid) [
    | inl invalid ↦ rw invalid (
        let left = cleared dial cluster engine (stop_all dial cluster engine p) in
        no_specs-IsCurrent (r.new_assignments ++ log)
          (re_register dial cluster engine is_done req left).agent
          (re_register-specs is_done req left))
    | inr valid ↦ rw valid (
        take_each-IsFrom (r.new_assignments ++ log) (λ id. is_running_task id p.executor)
          p.agent.epoch r.new_assignments p.agent.specs (All-IsIn_front r.new_assignments log)
          (All-map p.agent.specs (IsFrom-more r.new_assignments log p.agent.epoch) h))
  ]

  -- However its rounds, the starts of its tasks and the ends of its waits follow each other, and
  -- whatever the scheduler and Docker answer, each task that a worker tracks was assigned to it under
  -- the epoch of its present registration.
  pub Runs-IsCurrent :
      {p : Process S D} {log : List TaskAssignment} → Runs p log → IsCurrent log p.agent
  unfolding heartbeat_round send_heartbeat start_assigned_task finish
  Runs-IsCurrent {p} (has_registered e) = no_specs-IsCurrent [] p.agent e
  Runs-IsCurrent (beats {p} {log} is_done req before) =
      let allocated = allocated_resources p.executor.running_ids p.agent.specs in
      let answer =
        with_leader_retry dial (cluster.heartbeat (heartbeat_request p.agent) allocated) p.dialer
          p.cluster in
      answered_round-IsCurrent log is_done req (called dial cluster engine answer p)
        (subst (IsCurrent log) (sym (called-agent answer p)) (Runs-IsCurrent before))
  Runs-IsCurrent (starts {p} {log} error_text digits spec run_id before) =
      let told = send_report dial cluster engine (running_update spec p.agent) p in
      let launch = start_task engine digits spec run_id told.executor told.docker in
      after_launch-IsCurrent log error_text spec launch.0
        (record told { executor = launch.1; docker = launch.2 })
        (subst (IsCurrent log) (sym (send_report-agent (running_update spec p.agent) p))
          (Runs-IsCurrent before))
  Runs-IsCurrent (ends {p} {log} error_text r before) =
      let freed : Process S D = record p { executor = untracked r.task_id p.executor } in
      subst (IsCurrent log) (sym (handle_task_done-agent error_text r freed))
        (forget-IsCurrent log r.task_id p.agent (Runs-IsCurrent before))

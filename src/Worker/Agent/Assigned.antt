-- ===== src/Worker/Agent/Assigned.antt =====
-- cmd/worker/main.go: which assignments a worker starts.
use arbiter_distributed_sche.Base.{
  All, All-map, Bool, Bool-cases, IsIn, List, String, [], ap, arith, eq_refl, false, find,
  if◌then◌else◌, inl, inr, is_some, map, not, some, str_eq, sym, true, true≢false, ℕ, ◌&&◌, ◌==◌,
  ◌∙◌, ◌∷◌, ◌≡◌, ◌≢◌,
}
use arbiter_distributed_sche.Base.Index.{AreDistinct}
use arbiter_distributed_sche.Rpc.Heartbeat.{TaskAssignment}
use arbiter_distributed_sche.Worker.Agent.{
  Agent, TaskSpec, handle_assignments, is_new, is_tracked, spec_of, take_each,
}
use arbiter_distributed_sche.Worker.Agent.Taking.{
  IsTakenOn, take_each-AreOld, take_each-IsTakenOn, take_each-idle,
}

-- A spec that the loop may start: an assignment of the list asks for it under the epoch, while the
-- task has no container and no spec.
abbrev pub IsDue : (String → Bool) → ℕ → List TaskAssignment → List TaskSpec → TaskSpec → Type 0
IsDue is_running epoch others specs s =
    (a : TaskAssignment) × IsIn a others
    × (s ≡ record {
      task_id = a.task_id;
      image = a.image;
      command = a.command;
      cpu_request_millicores = a.request.cpu_millicores;
      mem_request_mb = a.request.memory_mb;
    })
    × (is_running a.task_id ≡ false)
    × (a.assigned_epoch ≡ epoch)
    × All (λ t. t.task_id ≢ a.task_id) specs

untracked-All :
    (id : String) (specs : List TaskSpec)
    → is_tracked id specs ≡ false
    → All (λ t. t.task_id ≢ id) specs
unfolding is_tracked
untracked-All id [] h = tt
untracked-All id (t ∷ specs) h =
    elim (Bool-cases (str_eq t.task_id id)) as (λ x. All (λ t. t.task_id ≢ id) (t ∷ specs)) [
      | inl own ↦ absurd (
          true≢false (
            sym
              (ap (λ b. is_some (if b then some t else find (λ s. str_eq s.task_id id) specs)) own)
            ∙ h))
      | inr other ↦ (
        λ e. true≢false (sym (eq_refl id) ∙ ap (λ x. str_eq x id) (sym e) ∙ other),
        untracked-All id specs (
            sym (
              ap (λ b. is_some (if b then some t else find (λ s. str_eq s.task_id id) specs)) other)
            ∙ h),
      )
    ]

three_tests : (x y z : Bool) → (not x && y && not z) ≡ true → (x ≡ false) × (y ≡ true) × (z ≡ false)
three_tests x y z h = ground arith

IsTakenOn-IsDue :
    (is_running : String → Bool) (epoch : ℕ) (others : List TaskAssignment) (specs : List TaskSpec)
    (s : TaskSpec)
    → IsTakenOn is_running epoch others specs s
    → IsDue is_running epoch others specs s
unfolding is_new spec_of
IsTakenOn-IsDue is_running epoch others specs s (a, i, e, new) =
    let (idle, same, free) =
      three_tests (is_running a.task_id) (a.assigned_epoch == epoch) (is_tracked a.task_id specs)
        new in
    (a, i, sym e, idle, num_eq a.assigned_epoch epoch same, untracked-All a.task_id specs free)
  where
    num_eq : (m n : ℕ) → (m == n) ≡ true → m ≡ n
    num_eq m n h = ground arith

-- A worker starts a task only on an assignment that carries the epoch of its registration, when the
-- task has no container and is not tracked, and starts no task twice; the same assignments delivered
-- again, while the containers are the same, start nothing.
pub handle_assignments_once :
    (is_running : String → Bool) (assignments : List TaskAssignment) (a : Agent)
    → let handled = handle_assignments is_running assignments a in
      All (IsDue is_running a.epoch assignments a.specs) handled.1
      × AreDistinct (map (λ s. s.task_id) handled.1)
      × ((handle_assignments is_running assignments handled.0).1 ≡ [])
unfolding handle_assignments
handle_assignments_once is_running assignments a =
    let started = (take_each is_running a.epoch assignments a.specs).1 in
    let (due, apart) = take_each-IsTakenOn is_running a.epoch assignments a.specs in
    (
      All-map started (IsTakenOn-IsDue is_running a.epoch assignments a.specs) due,
      apart,
      ap (λ x. x.1)
          (take_each-idle is_running a.epoch assignments
            (take_each is_running a.epoch assignments a.specs).0
            (take_each-AreOld is_running a.epoch assignments a.specs)),
    )

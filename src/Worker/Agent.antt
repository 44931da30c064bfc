-- ===== src/Worker/Agent.antt =====
-- cmd/worker/main.go: `workerAgent`, the tasks that a worker has taken on; `TaskSpec` of
-- internal/executor/executor.go.
pub mod Taking
pub mod Assigned
use arbiter_distributed_sche.Base.{
  Bool, List, String, [], find, if◌then◌else◌, is_some, not, select, str_eq, ℕ, ◌&&◌, ◌++◌, ◌==◌,
  ◌∷◌,
}
use arbiter_distributed_sche.Base.Int.{add64, pos, ℤ}
use arbiter_distributed_sche.Rpc.Heartbeat.{TaskAssignment}
use arbiter_distributed_sche.Store.Lease.Terms.{taken}

pub record TaskSpec : Type 0 where
  pub task_id : String
  pub image : String
  pub command : List String
  pub cpu_request_millicores : ℤ
  pub mem_request_mb : ℤ

-- `workerAgent`: the map of specs by task id, and the identity.
pub record Agent : Type 0 where
  pub specs : List TaskSpec
  pub node_id : String
  pub epoch : ℕ

-- `setIdentity`
unfoldable pub set_identity : String → ℕ → Agent → Agent
set_identity node_id epoch a = record a { node_id = node_id; epoch = epoch }

-- `delete(a.specs, id)`
unfoldable pub forget : String → Agent → Agent
forget id a = record a { specs = select (λ s. not (str_eq s.task_id id)) a.specs }

unfoldable pub spec_of : TaskAssignment → TaskSpec
spec_of a = record {
  task_id = a.task_id;
  image = a.image;
  command = a.command;
  cpu_request_millicores = a.request.cpu_millicores;
  mem_request_mb = a.request.memory_mb;
}

-- `_, exists := a.specs[id]`
unfoldable pub is_tracked : String → List TaskSpec → Bool
is_tracked id specs = is_some (find (λ s. str_eq s.task_id id) specs)

-- The assignment passes the three tests of the loop: the task has no container, the epoch is this
-- registration's, and no spec is kept for it.
unfoldable pub is_new : (String → Bool) → ℕ → TaskAssignment → List TaskSpec → Bool
unfolding is_tracked
is_new is_running epoch a specs =
    not (is_running a.task_id) && a.assigned_epoch == epoch && not (is_tracked a.task_id specs)

-- The loop of `handleAssignments`: the specs that it leaves, and those that it starts, in order.
unfoldable pub take_each :
    (String → Bool) → ℕ → List TaskAssignment → List TaskSpec → List TaskSpec × List TaskSpec
unfolding is_new spec_of
take_each is_running epoch [] specs = (specs, [])
take_each is_running epoch (a ∷ others) specs =
    let taken = take_each is_running epoch others (specs ++ spec_of a ∷ []) in
    let passed_over = take_each is_running epoch others specs in
    if is_new is_running epoch a specs then (taken.0, spec_of a ∷ taken.1) else passed_over

-- `handleAssignments`, while the executor's containers are as `is_running` says: the agent that it
-- leaves, and the specs that are started.
unfoldable pub handle_assignments :
    (String → Bool) → List TaskAssignment → Agent → Agent × List TaskSpec
unfolding take_each
handle_assignments is_running assignments a =
    let taken = take_each is_running a.epoch assignments a.specs in
    (record a { specs = taken.0 }, taken.1)

-- `AllocatedResources`: the requests of the tasks that have a container and a spec.
unfoldable pub requests_of : List TaskSpec → String → ℤ × ℤ
requests_of [] id = (pos 0, pos 0)
requests_of (s ∷ specs) id =
    if str_eq s.task_id id
    then (s.cpu_request_millicores, s.mem_request_mb)
    else requests_of specs id

unfoldable pub allocated_resources : List String → List TaskSpec → ℤ × ℤ
unfolding requests_of add64
allocated_resources [] specs = (pos 0, pos 0)
allocated_resources (id ∷ ids) specs =
    let own = requests_of specs id in
    let others = allocated_resources ids specs in (add64 own.0 others.0, add64 own.1 others.1)

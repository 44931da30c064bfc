-- ===== src/Scheduler/Capacity.antt =====
-- internal/scheduler/filters.go and plugins.go: a placement stays within the node's capacity.
use arbiter_distributed_sche.Base.{
  &&-true, Bool, List, String, arith, false, if◌then◌else◌, refl, some, subst, true, ◌≡◌,
}
use arbiter_distributed_sche.Base.Int.{
  IsInt64, int_laws, leb_ℤ, sub64, wrap64_id, ℤ, ◌+ℤ◌, ◌-ℤ◌, ◌≤ℤ◌,
}
use arbiter_distributed_sche.Scheduler.Candidates.{place-eligible}
use arbiter_distributed_sche.Scheduler.Plugins.{
  Float64, NodeView, Scorer, default_filters, free_cpu_millicores, free_mem_mb, has_resources,
  is_eligible, is_ready, place, view_of,
}
use arbiter_distributed_sche.Store.{Node, NodeStatus, ready, same_node_status}
use arbiter_distributed_sche.Store.Allocation.{NodeAllocation}
use arbiter_distributed_sche.Store.Tasks.{TaskWithJob}

-- A difference that fits in an int64 is computed exactly, so the test is the one on integers.
fits_below :
    (request capacity used : ℤ)
    → IsInt64 (capacity -ℤ used)
    → leb_ℤ request (sub64 capacity used) ≡ true
    → used +ℤ request ≤ℤ capacity
unfolding sub64
fits_below request capacity used range test =
    let h : request ≤ℤ (capacity -ℤ used) =
      ground
        (arith, subst (λ z. leb_ℤ request z ≡ true) (wrap64_id (capacity -ℤ used) range) test) in
    grind (int_laws, h)

ready_of_test : (s : NodeStatus) → same_node_status s ready ≡ true → s ≡ ready
unfolding same_node_status
ready_of_test ready h = refl
ready_of_test _ h = cc

if_true : (a b : Bool) → (if a then b else false) ≡ true → (a ≡ true) × (b ≡ true)
if_true true b h = (refl, h)
if_true false b h = cc

eligible_parts :
    (v : NodeView) (task : TaskWithJob)
    → is_eligible default_filters v task ≡ true
    → (is_ready v task ≡ true) × (has_resources v task ≡ true)
unfolding is_eligible
eligible_parts v task h =
    let (r, rest) = if_true (is_ready v task) _ h in (r, (if_true (has_resources v task) _ rest).0)

-- With the default filters, a node that `Place` returns is ready, and what is allocated on it and
-- what the task requests are together within its capacity, for the CPU and for the memory. The free
-- amounts of the node are in the range of an int64.
pub place_within_capacity :
    (float : Float64) (allocs : String → NodeAllocation) (task : TaskWithJob)
    (scorer : Scorer float) (nodes : List Node) (n : Node)
    → place float nodes allocs task (some default_filters) (some scorer) ≡ some n
    → IsInt64 (n.cpu_capacity_millicores -ℤ (allocs n.id).cpu_millicores)
    → IsInt64 (n.mem_capacity_mb -ℤ (allocs n.id).memory_mb)
    → (n.status ≡ ready)
      × ((allocs n.id).cpu_millicores +ℤ task.cpu_request_millicores ≤ℤ n.cpu_capacity_millicores)
      × ((allocs n.id).memory_mb +ℤ task.mem_request_mb ≤ℤ n.mem_capacity_mb)
unfolding is_ready has_resources free_cpu_millicores free_mem_mb
place_within_capacity float allocs task scorer nodes n e cpu mem =
    let (is_up, room) =
      eligible_parts (view_of float allocs task default_filters scorer n) task
        (place-eligible float allocs task default_filters scorer nodes n e) in
    let (c, m) = &&-true (leb_ℤ task.cpu_request_millicores _) _ room in
    (
      ready_of_test n.status is_up,
      fits_below task.cpu_request_millicores n.cpu_capacity_millicores (allocs n.id).cpu_millicores
          cpu c,
      fits_below task.mem_request_mb n.mem_capacity_mb (allocs n.id).memory_mb mem m,
    )

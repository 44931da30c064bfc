-- ===== src/Scheduler/Engine.antt =====
-- internal/scheduler/engine.go: the tick of the scheduling loop. Metrics and logs are left out.
use arbiter_distributed_sche.Base.{
  Bool, List, Option, String, [], coalesce, if◌then◌else◌, none, some, str_eq, true, ℕ, ◌+◌, ◌∷◌,
}
use arbiter_distributed_sche.Base.Int.{add64}
use arbiter_distributed_sche.Scheduler.Plugins.{Float64, default_filters, place, scorer_for_policy}
use arbiter_distributed_sche.Store.{Db, Node, Tx, and_then, pure, ◌>>=◌, ◌>>◌}
use arbiter_distributed_sche.Store.Allocation.{NodeAllocation, get_node_allocations}
use arbiter_distributed_sche.Store.Nodes.{list_active_nodes}
use arbiter_distributed_sche.Store.Tasks.{
  TaskWithJob, claim_pending_tasks_for_scheduling, schedule_task,
}

-- `defaultClaimLimit`
abbrev pub default_claim_limit : ℕ
default_claim_limit = 50

-- `pendingAlloc[node.ID] = a`, after both sums.
unfoldable pub reserve : (String → NodeAllocation) → String → TaskWithJob → String → NodeAllocation
unfolding add64
reserve allocs id task j =
    if str_eq id j
    then record {
      cpu_millicores = add64 (allocs id).cpu_millicores task.cpu_request_millicores;
      memory_mb = add64 (allocs id).memory_mb task.mem_request_mb;
    }
    else allocs j

-- A read on another connection of the pool, which sees the database `seen`.
abbrev pub read_from : {A : Type 0} → Db → Tx A → Tx A
read_from seen m db = and_then (m seen) (λ a _. pure a db)

module _ (float : Float64) (now : ℕ) where
  -- What the loop does with the answer of `Place`; `rest` places the remaining tasks.
  unfoldable pub place_on :
      ((String → NodeAllocation) → Tx ℕ)
      → (String → NodeAllocation)
      → TaskWithJob
      → Option Node
      → Tx ℕ
  place_on rest allocs task none = rest allocs
  place_on rest allocs task (some node) = do
    schedule_task now task.id node.id node.epoch
    placed ← rest (reserve allocs node.id task)
    pure (placed + 1)

  -- The loop over the claimed tasks; the result counts the placed ones.
  unfoldable pub place_tasks : List Node → (String → NodeAllocation) → List TaskWithJob → Tx ℕ
  place_tasks nodes allocs [] = pure 0
  place_tasks nodes allocs (task ∷ tasks) =
      place_on (λ allocs'. place_tasks nodes allocs' tasks) allocs task
        (place float nodes allocs task (some default_filters)
          (some (scorer_for_policy float task.scheduling_policy)))

  -- The tick after the test on the leader. The nodes and the allocations are read outside the
  -- transaction, from what is committed then: `nodes_seen` and `allocs_seen`.
  unfoldable pub place_claimed : Db → Db → List TaskWithJob → Tx ℕ
  place_claimed nodes_seen allocs_seen [] = pure 0
  place_claimed nodes_seen allocs_seen (task ∷ tasks) = do
    allocs ← read_from allocs_seen get_node_allocations
    place_tasks (list_active_nodes nodes_seen) allocs (task ∷ tasks)

  -- `tick`: `leader` is `none` for a nil gate, and `locked` says which rows are locked elsewhere.
  unfoldable pub tick : Option Bool → (String → Bool) → Db → Db → Tx ℕ
  tick leader locked nodes_seen allocs_seen =
      if coalesce leader true
      then claim_pending_tasks_for_scheduling locked now default_claim_limit
        >>= place_claimed nodes_seen allocs_seen
      else pure 0

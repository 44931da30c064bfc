-- ===== src/Scheduler/Soundness.antt =====
-- internal/scheduler/engine.go: a tick keeps the tables valid.
use arbiter_distributed_sche.Base.{
  All, All-map, Bool, Bool-cases, List, Option, String, [], arith, coalesce, find, inl, inr, none,
  refl, some, true, ℕ, ◌∷◌, ◌≡◌, ◌≤◌,
}
use arbiter_distributed_sche.Base.Order.{All-order_by, All-select}
use arbiter_distributed_sche.Scheduler.Candidates.{place-All}
use arbiter_distributed_sche.Scheduler.Engine.{
  place_claimed, place_on, place_tasks, read_from, reserve, tick,
}
use arbiter_distributed_sche.Scheduler.Plugins.{Float64, default_filters, scorer_for_policy}
use arbiter_distributed_sche.Store.{
  Db, Ensures, Node, Result, Tx, and_then, bind-Ensures, err, ok, pure,
}
use arbiter_distributed_sche.Store.Allocation.{NodeAllocation, get_node_allocations}
use arbiter_distributed_sche.Store.Nodes.{is_active, is_node, list_active_nodes}
use arbiter_distributed_sche.Store.Tasks.{
  TaskWithJob, claim_pending_tasks_for_scheduling, schedule_task,
}
use arbiter_distributed_sche.Store.Valid.{IsSound, IsValid, NodesAdvance}
use arbiter_distributed_sche.Store.Valid.Rows.{IsSound-refl, IsSound-trans}
use arbiter_distributed_sche.Store.Valid.Scheduling.{schedule_task-IsSound}

-- The node that was seen is still in the tables, and its epoch has not fallen.
abbrev pub IsKnown : List Node → Node → Type 0
IsKnown nodes n = (m : Node) × (find (is_node n.id) nodes ≡ some m) × (n.epoch ≤ m.epoch)

IsKnown-advances :
    (nodes nodes' : List Node) (n : Node)
    → NodesAdvance nodes nodes'
    → IsKnown nodes n
    → IsKnown nodes' n
IsKnown-advances nodes nodes' n a (m, found, le) =
    let (m', found', le') = a n.id m found in (m', found', omega (arith, le, le'))

module _ (float : Float64) (now : ℕ) where
  place_on-IsSound :
      (rest : (String → NodeAllocation) → Tx ℕ) (allocs : String → NodeAllocation)
      (task : TaskWithJob) (o : Option Node) (db : Db)
      → IsValid db
      → ((n : Node) → o ≡ some n → IsKnown db.nodes n)
      → ((allocs' : String → NodeAllocation) (d : Db)
          → IsSound db d
          → Ensures (λ _ e. IsSound d e) (rest allocs' d))
      → Ensures (λ _ e. IsSound db e) (place_on float now rest allocs task o db)
  unfolding place_on
  place_on-IsSound rest allocs task none db v h k = k allocs db (IsSound-refl v)
  place_on-IsSound rest allocs task (some n) db v h k =
      let (m, found, le) = h n refl in
      bind-Ensures (λ _ d. IsSound db d) _ (schedule_task now task.id n.id n.epoch db) _
        (schedule_task-IsSound now task.id n.id n.epoch found le v)
        (λ _ d s.
          bind-Ensures (λ _ e. IsSound d e) _ (rest (reserve allocs n.id task) d) _
            (k (reserve allocs n.id task) d s) (λ _ e r. IsSound-trans s r))

  place_tasks-IsSound :
      (nodes : List Node) (allocs : String → NodeAllocation) (tasks : List TaskWithJob) (db : Db)
      → All (IsKnown db.nodes) nodes
      → IsValid db
      → Ensures (λ _ db'. IsSound db db') (place_tasks float now nodes allocs tasks db)
  unfolding place_tasks
  place_tasks-IsSound nodes allocs [] db known v = IsSound-refl v
  place_tasks-IsSound nodes allocs (task ∷ tasks) db known v =
      place_on-IsSound _ allocs task _ db v
        (place-All float allocs task default_filters
          (scorer_for_policy float task.scheduling_policy) (IsKnown db.nodes) nodes known)
        (λ allocs' d s.
          place_tasks-IsSound nodes allocs' tasks d
            (All-map nodes (λ n k. IsKnown-advances db.nodes d.nodes n s.evolves.nodes k) known)
            s.valid)

  read_from-Ensures :
      {A : Type 0} (seen : Db) (m : Tx A) (db : Db) → Ensures (λ _ d. d ≡ db) (read_from seen m db)
  read_from-Ensures seen m db = from (m seen)
    where
      from :
          {A : Type 0} (r : Result (A × Db))
          → Ensures (λ _ d. d ≡ db) (and_then r (λ a _. pure a db))
      from (ok (a, d)) = refl
      from (err e) = tt

  place_claimed-IsSound :
      (nodes_seen allocs_seen : Db) (tasks : List TaskWithJob) (db : Db)
      → All (IsKnown db.nodes) nodes_seen.nodes
      → IsValid db
      → Ensures (λ _ db'. IsSound db db') (place_claimed float now nodes_seen allocs_seen tasks db)
  unfolding place_claimed list_active_nodes
  place_claimed-IsSound nodes_seen allocs_seen [] db known v = IsSound-refl v
  place_claimed-IsSound nodes_seen allocs_seen (task ∷ tasks) db known v =
      bind-Ensures (λ _ d. d ≡ db) _ (read_from allocs_seen get_node_allocations db) _
        (read_from-Ensures allocs_seen get_node_allocations db)
        (λ allocs d e.
          rw e
            (place_tasks-IsSound (list_active_nodes nodes_seen) allocs (task ∷ tasks) db active v))
    where
      active : All (IsKnown db.nodes) (list_active_nodes nodes_seen)
      active =
          All-order_by (IsKnown db.nodes) (λ n. n.created_at) _
            (All-select (IsKnown db.nodes) (λ n. is_active n.status) nodes_seen.nodes known)

  -- A tick of the scheduler that commits leaves valid tables that evolved from the old ones: no
  -- final row changes, nothing is lost, and each assignment names a node that exists, with an epoch
  -- not beyond that node's. Every node that the tick has read is still in the tables at its commit,
  -- with an epoch at least the one read; the allocations may be as old as they like.
  pub tick-IsSound :
      (leader : Option Bool) (locked : String → Bool) (nodes_seen allocs_seen db : Db)
      → All (IsKnown db.nodes) nodes_seen.nodes
      → IsValid db
      → Ensures (λ _ db'. IsSound db db') (tick float now leader locked nodes_seen allocs_seen db)
  unfolding tick claim_pending_tasks_for_scheduling
  tick-IsSound leader locked nodes_seen allocs_seen db known v =
      elim (Bool-cases (coalesce leader true)) [
        | inl leading ↦ rw leading (place_claimed-IsSound nodes_seen allocs_seen _ db known v)
        | inr follows ↦ rw follows (IsSound-refl v)
      ]

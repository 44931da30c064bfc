-- ===== src/Autoscaler/Ticks.antt =====
-- internal/autoscaler/autoscaler.go: `tick` and the loop of `Run`.
use arbiter_distributed_sche.Base.{
  Bool, List, Option, String, [], coalesce, if◌then◌else◌, inl, inr, length, none, some, str_eq,
  true, ◌&&◌, ◌∷◌,
}
use arbiter_distributed_sche.Autoscaler.{
  Cluster, Fault, ScalingConfig, can_scale, filter_autoscaled, of_docker, of_store, set_idle,
}
use arbiter_distributed_sche.Autoscaler.Choices.{
  Choice, Host, Reading, choose, is_sustained, keep_busy, keep_idle, noted_idle, pending_from,
  reclaim, set_runner,
}
use arbiter_distributed_sche.Autoscaler.Scaling.{scale_down, scale_up}
use arbiter_distributed_sche.Base.Int.{ltb_ℤ, pos, ℤ}
use arbiter_distributed_sche.Docker.{ContainerSummary, Engine, Try, list_autoscaled_workers}
use arbiter_distributed_sche.Docker.Workers.{detect_compose_network}
use arbiter_distributed_sche.Store.{Db, Node, Result, err, ok, pending}
use arbiter_distributed_sche.Store.Allocation.{NodeAllocation, get_node_allocations}
use arbiter_distributed_sche.Store.Nodes.{list_nodes}
use arbiter_distributed_sche.Store.Tasks.{count_tasks_by_status}

module _ {D : Type 0} (digits : ℤ → String) (engine : Engine D) (cfg : ScalingConfig)
    (host : Host) where
  -- A reclaim ends the loop; its failure leaves the entry.
  unfoldable pub reclaimed : Reading → Node → Option Fault × Cluster D → Option Fault × Cluster D
  reclaimed t n (some e, c) = (some e, c)
  reclaimed t n (none, c) = (
    none,
    set_runner (λ r. record (set_idle n.id none r) { last_scale_action = some t.acted_at }) c,
  )

  -- A round of the loop, with the rounds after it.
  unfoldable pub reclaim_one :
      Reading
      → Node
      → (Cluster D → Option Fault × Cluster D)
      → Choice
      → Cluster D
      → Option Fault × Cluster D
  unfolding noted_idle reclaimed
  reclaim_one t n others keep_busy c = others (set_runner (set_idle n.id none) c)
  reclaim_one t n others keep_idle c = others (set_runner (noted_idle t n) c)
  reclaim_one t n others reclaim c =
      reclaimed t n (scale_down digits engine t.now n (set_runner (noted_idle t n) c))

  unfoldable pub reclaim_each :
      Reading → (String → NodeAllocation) → List Node → Cluster D → Option Fault × Cluster D
  unfolding choose reclaim_one
  reclaim_each t allocs [] c = (none, c)
  reclaim_each t allocs (n ∷ ns) c =
      reclaim_one t n (reclaim_each t allocs ns) (choose cfg t allocs c.runner n) c

  unfoldable pub launched : Reading → Option Fault × Cluster D → Option Fault × Cluster D
  launched t (some e, c) = (some e, c)
  launched t (none, c) = (
    none,
    set_runner (λ r. record r { last_scale_action = some t.acted_at; pending_since = none }) c,
  )

  -- The workers are counted before a launch.
  unfoldable pub launch_below :
      Reading
      → (String → NodeAllocation)
      → List Node
      → Try (List ContainerSummary)
      → Cluster D
      → Option Fault × Cluster D
  unfolding launched reclaim_each
  launch_below t allocs nodes (inl e) c = (some (of_docker e), c)
  launch_below t allocs nodes (inr ws) c =
      if ltb_ℤ (pos (length ws)) cfg.max_autoscaled_workers
      then launched t (scale_up digits engine cfg t.now c)
      else reclaim_each t allocs nodes c

  -- Once the allocations have been read.
  unfoldable pub scale_by :
      Reading
      → List Node
      → Result ((String → NodeAllocation) × Db)
      → Cluster D
      → Option Fault × Cluster D
  unfolding launch_below pending_from is_sustained
  scale_by t nodes (err e) c = (some (of_store e), c)
  scale_by t nodes (ok (allocs, db)) c =
      let backlog = pos (count_tasks_by_status c.db pending) in
      let since = pending_from cfg backlog t.now c.runner.pending_since in
      let c' = set_runner (λ r. record r { pending_since = since }) c in
      if can_scale cfg c.runner.last_scale_action t.tested_at && is_sustained cfg t.now since
      then launch_below t allocs nodes (list_autoscaled_workers engine c.docker) c'
      else reclaim_each t allocs nodes c'

  -- `ensureNetwork`, then the rest of `tick`.
  unfoldable pub with_network : Reading → Try String → Cluster D → Option Fault × Cluster D
  unfolding scale_by
  with_network t (inl e) c = (some (of_docker e), c)
  with_network t (inr name) c =
      scale_by t (filter_autoscaled (list_nodes c.db)) (get_node_allocations c.db)
        (set_runner (λ r. record r { network = name }) c)

  unfoldable pub ensured_network : Cluster D → Try String
  ensured_network c =
      if str_eq c.runner.network ""
      then detect_compose_network engine host.network_env host.hostname c.docker
      else inr c.runner.network

  -- `tick`
  unfoldable pub scaling_tick : Reading → Cluster D → Option Fault × Cluster D
  unfolding with_network ensured_network
  scaling_tick t c = with_network t (ensured_network c) c

  -- `case <-ticker.C`: a replica that does not lead forgets its windows.
  unfoldable pub on_ticker : Option Bool → Reading → Cluster D → Option Fault × Cluster D
  unfolding scaling_tick
  on_ticker leader t c =
      if coalesce leader true
      then scaling_tick t c
      else (none, set_runner (λ r. record r { pending_since = none; idle_since = λ id. none }) c)

-- ===== src/Autoscaler/Capacity.antt =====
-- internal/autoscaler/autoscaler.go: no launch past the cap.
use arbiter_distributed_sche.Base.{
  All, Bool, Bool-cases, IsIn-All, List, Option, String, coalesce, false, if◌then◌else◌, inl, inr,
  length, true, ℕ, ◌&&◌, ◌≡◌,
}
use arbiter_distributed_sche.Autoscaler.{Cluster, ScalingConfig, can_scale, filter_autoscaled}
use arbiter_distributed_sche.Autoscaler.Choices.{
  Host, Reading, is_sustained, pending_from, set_runner,
}
use arbiter_distributed_sche.Autoscaler.Keeping.{Kept, reclaim_each-Holds}
use arbiter_distributed_sche.Autoscaler.Ticks.{
  ensured_network, launch_below, on_ticker, reclaim_each, scale_by, scaling_tick, with_network,
}
use arbiter_distributed_sche.Base.Int.{ltb_ℤ, pos, ℤ}
use arbiter_distributed_sche.Docker.{ContainerSummary, Engine, Try, list_autoscaled_workers}
use arbiter_distributed_sche.Store.{
  Db, Ensures, Node, Result, cordoned, err, node_cordoned, ok, pending,
}
use arbiter_distributed_sche.Store.Allocation.{NodeAllocation, get_node_allocations}
use arbiter_distributed_sche.Store.Nodes.{list_nodes, update_node_status}
use arbiter_distributed_sche.Store.Tasks.{count_tasks_by_status}

Ensures-always : {A : Type 0} (P : Type 0) (r : Result (A × Db)) → P → Ensures (λ a db. P) r
Ensures-always P (ok (a, db)) p = p
Ensures-always P (err e) p = tt

module _ {D : Type 0} (digits : ℤ → String) (engine : Engine D) (cfg : ScalingConfig) (host : Host)
    (J : D → Type 0) (removal : (id : String) (d : D) → J d → J (engine.delete id true d).1) where
  docker_only : Kept digits engine cfg host (λ db d. J d) (λ n. Unit)
  docker_only = record {
    removal = λ id db d h. removal id d h;
    event = λ now id type message db d h. h;
    cordoning = λ now n message db d k h.
        Ensures-always (J d) (update_node_status now n.id cordoned node_cordoned message db) h;
    death = λ now n db d k h. h;
  }

  everyone : (ns : List Node) → All (λ n. Unit {0}) ns
  everyone ns = IsIn-All (λ n. Unit) ns (λ n i. tt)

  scale_by-full :
      (t : Reading) (ns : List Node) (r : Result ((String → NodeAllocation) × Db)) (c : Cluster D)
      (ws : List ContainerSummary)
      → list_autoscaled_workers engine c.docker ≡ inr ws
      → ltb_ℤ (pos (length ws)) cfg.max_autoscaled_workers ≡ false
      → J c.docker
      → J (scale_by digits engine cfg host t ns r c).1.docker
  unfolding scale_by launch_below
  scale_by-full t ns (err e) c ws l full h = h
  scale_by-full t ns (ok (allocs, db)) c ws l full h =
      go (can_scale cfg c.runner.last_scale_action t.tested_at && is_sustained cfg t.now since)
    where
      since : Option ℕ
      since =
          pending_from cfg (pos (count_tasks_by_status c.db pending)) t.now c.runner.pending_since

      c' : Cluster D
      c' = set_runner (λ r. record r { pending_since = since }) c

      loop : J (reclaim_each digits engine cfg host t allocs ns c').1.docker
      loop =
          reclaim_each-Holds digits engine cfg host (λ db d. J d) (λ n. Unit) docker_only t allocs
            ns c' (everyone ns) h

      go :
          (b : Bool)
          → J
              (if b
                then launch_below digits engine cfg host t allocs ns
                    (list_autoscaled_workers engine c.docker)
                    c'
                else reclaim_each digits engine cfg host t allocs ns c').1.docker
      go false = loop
      go true = rw l (rw full loop)

  with_network-full :
      (t : Reading) (network : Try String) (c : Cluster D) (ws : List ContainerSummary)
      → list_autoscaled_workers engine c.docker ≡ inr ws
      → ltb_ℤ (pos (length ws)) cfg.max_autoscaled_workers ≡ false
      → J c.docker
      → J (with_network digits engine cfg host t network c).1.docker
  unfolding with_network
  with_network-full t (inl e) c ws l full h = h
  with_network-full t (inr name) c ws l full h =
      scale_by-full t (filter_autoscaled (list_nodes c.db)) (get_node_allocations c.db)
        (set_runner (λ r. record r { network = name }) c) ws l full h

  -- At the cap a tick only removes containers, whatever the backlog and the clock: what the removals
  -- preserve of Docker's state, the tick preserves. The listing of the autoscaled workers answers, and
  -- has at least as many as the cap.
  pub tick_at_cap_only_removes :
      (leader : Option Bool) (t : Reading) (c : Cluster D) (ws : List ContainerSummary)
      → list_autoscaled_workers engine c.docker ≡ inr ws
      → ltb_ℤ (pos (length ws)) cfg.max_autoscaled_workers ≡ false
      → J c.docker
      → J (on_ticker digits engine cfg host leader t c).1.docker
  unfolding on_ticker scaling_tick
  tick_at_cap_only_removes leader t c ws l full h = elim (Bool-cases (coalesce leader true)) [
    | inl led ↦
        rw led (with_network-full t (ensured_network digits engine cfg host c) c ws l full h)
    | inr follows ↦ rw follows h
  ]

-- ===== src/Autoscaler/Caution.antt =====
-- internal/autoscaler/autoscaler.go: when a tick does not act.
use arbiter_distributed_sche.Base.{
  Bool, Bool-cases, List, Option, String, [], ap, arith, coalesce, false, if◌then◌else◌, inl, inr,
  none, not, refl, some, subst, sym, true, ℕ, ◌&&◌, ◌+◌, ◌<◌, ◌||◌, ◌∙◌, ◌∷◌, ◌≡◌, ◌⊎◌,
}
use arbiter_distributed_sche.Autoscaler.{
  Cluster, Fault, Runner, ScalingConfig, can_scale, filter_autoscaled, set_idle,
}
use arbiter_distributed_sche.Autoscaler.Choices.{
  Host, Reading, choose, is_idle, is_reclaimable, is_sustained, keep_busy, keep_idle, noted_idle,
  pending_from, reclaim, set_runner,
}
use arbiter_distributed_sche.Autoscaler.Ticks.{
  ensured_network, launch_below, on_ticker, reclaim_each, reclaim_one, scale_by, scaling_tick,
  with_network,
}
use arbiter_distributed_sche.Base.Int.{leb_ℤ, pos, ℤ}
use arbiter_distributed_sche.Detector.{time_since}
use arbiter_distributed_sche.Docker.{Engine, Try, list_autoscaled_workers}
use arbiter_distributed_sche.Store.{Db, Node, Result, err, ok, pending}
use arbiter_distributed_sche.Store.Allocation.{NodeAllocation, get_node_allocations}
use arbiter_distributed_sche.Store.Nodes.{list_nodes}
use arbiter_distributed_sche.Store.Tasks.{count_tasks_by_status}

less_than_cooldown :
    (cooldown last now : ℕ)
    → 0 < cooldown
    → now < last + cooldown
    → leb_ℤ (pos cooldown) (time_since now last) ≡ false
unfolding time_since
less_than_cooldown cooldown last now positive soon = ground arith

too_soon :
    (cooldown last now : ℕ) (cfg : ScalingConfig) (r : Runner)
    → cfg.cooldown ≡ pos cooldown
    → 0 < cooldown
    → r.last_scale_action ≡ some last
    → now < last + cooldown
    → can_scale cfg r.last_scale_action now ≡ false
unfolding can_scale
too_soon cooldown last now cfg r lasts positive acted soon =
    ap (λ o. can_scale cfg o now) acted
    ∙ ap (λ k. if leb_ℤ k (pos 0) then true else leb_ℤ k (time_since now last)) lasts
    ∙ ap (λ b. if b then true else leb_ℤ (pos cooldown) (time_since now last)) long
    ∙ less_than_cooldown cooldown last now positive soon
  where
    long : leb_ℤ (pos cooldown) (pos 0) ≡ false
    long = ground (arith, positive)

module _ {D : Type 0} (digits : ℤ → String) (engine : Engine D) (cfg : ScalingConfig)
    (host : Host) where
  -- The database and the Docker Engine are as they were.
  abbrev IsQuiet : Cluster D → Option Fault × Cluster D → Type 0
  IsQuiet c x = (x.1.db ≡ c.db) × (x.1.docker ≡ c.docker)

  -- The last action is too recent for another.
  abbrev IsCooling : Reading → Cluster D → Type 0
  IsCooling t c = can_scale cfg c.runner.last_scale_action t.tested_at ≡ false

  choose_cooling :
      (t : Reading) (allocs : String → NodeAllocation) (r : Runner) (n : Node)
      → can_scale cfg r.last_scale_action t.tested_at ≡ false
      → (choose cfg t allocs r n ≡ keep_busy) ⊎ (choose cfg t allocs r n ≡ keep_idle)
  unfolding choose
  choose_cooling t allocs r n h =
      go (not (is_reclaimable n.status) || not (is_idle (allocs n.id)))
        (can_scale cfg r.last_scale_action t.tested_at)
        (leb_ℤ cfg.idle_window (time_since t.now (coalesce (r.idle_since n.id) t.now))) h
    where
      go :
          (a b e : Bool)
          → b ≡ false
          → ((if a then keep_busy else if b && e then reclaim else keep_idle) ≡ keep_busy)
            ⊎ ((if a then keep_busy else if b && e then reclaim else keep_idle) ≡ keep_idle)
      go true b e q = inl refl
      go false true e q = cc
      go false false e q = inr refl

  reclaim_each-IsQuiet :
      (t : Reading) (allocs : String → NodeAllocation) (ns : List Node) (c : Cluster D)
      → IsCooling t c
      → IsQuiet c (reclaim_each digits engine cfg host t allocs ns c)
  unfolding reclaim_each reclaim_one noted_idle set_idle
  reclaim_each-IsQuiet t allocs [] c h = (refl, refl)
  reclaim_each-IsQuiet t allocs (n ∷ ns) c h = elim (choose_cooling t allocs c.runner n h) [
    | inl busy ↦
        subst
          (λ v. IsQuiet c (
            reclaim_one digits engine cfg host t n (reclaim_each digits engine cfg host t allocs ns)
              v c))
          (sym busy) (reclaim_each-IsQuiet t allocs ns (set_runner (set_idle n.id none) c) h)
    | inr idle ↦
        subst
          (λ v. IsQuiet c (
            reclaim_one digits engine cfg host t n (reclaim_each digits engine cfg host t allocs ns)
              v c))
          (sym idle) (reclaim_each-IsQuiet t allocs ns (set_runner (noted_idle t n) c) h)
  ]

  scale_by-IsQuiet :
      (t : Reading) (ns : List Node) (r : Result ((String → NodeAllocation) × Db)) (c : Cluster D)
      → IsCooling t c
      → IsQuiet c (scale_by digits engine cfg host t ns r c)
  unfolding scale_by
  scale_by-IsQuiet t ns (err e) c h = (refl, refl)
  scale_by-IsQuiet t ns (ok (allocs, db)) c h =
      let since =
        pending_from cfg (pos (count_tasks_by_status c.db pending)) t.now c.runner.pending_since in
      let c' = set_runner (λ r. record r { pending_since = since }) c in
      subst
        (λ b. IsQuiet c (
          if b && is_sustained cfg t.now since
          then launch_below digits engine cfg host t allocs ns
              (list_autoscaled_workers engine c.docker) c'
          else reclaim_each digits engine cfg host t allocs ns c'))
        (sym h) (reclaim_each-IsQuiet t allocs ns c' h)

  with_network-IsQuiet :
      (t : Reading) (network : Try String) (c : Cluster D)
      → IsCooling t c
      → IsQuiet c (with_network digits engine cfg host t network c)
  unfolding with_network
  with_network-IsQuiet t (inl e) c h = (refl, refl)
  with_network-IsQuiet t (inr name) c h =
      scale_by-IsQuiet t (filter_autoscaled (list_nodes c.db)) (get_node_allocations c.db)
        (set_runner (λ r. record r { network = name }) c) h

  -- While less than the cooldown has passed since the last action of the autoscaler, when it tests
  -- the cooldown, a tick changes neither the database nor anything at Docker, whatever the backlog
  -- and however long nodes have been idle. The cooldown is positive.
  pub tick_waits_out_cooldown :
      (leader : Option Bool) (t : Reading) (c : Cluster D) (cooldown last : ℕ)
      → cfg.cooldown ≡ pos cooldown
      → 0 < cooldown
      → c.runner.last_scale_action ≡ some last
      → t.tested_at < last + cooldown
      → let x = on_ticker digits engine cfg host leader t c in
        (x.1.db ≡ c.db) × (x.1.docker ≡ c.docker)
  unfolding on_ticker scaling_tick
  tick_waits_out_cooldown leader t c cooldown last lasts positive acted soon =
      let cooling = too_soon cooldown last t.tested_at cfg c.runner lasts positive acted soon in
      elim (Bool-cases (coalesce leader true)) [
        | inl led ↦
            rw led (with_network-IsQuiet t (ensured_network digits engine cfg host c) c cooling)
        | inr follows ↦ rw follows (refl, refl)
      ]

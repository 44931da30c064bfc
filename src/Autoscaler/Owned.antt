-- ===== src/Autoscaler/Owned.antt =====
-- internal/autoscaler/autoscaler.go: the nodes that the autoscaler did not launch.
use arbiter_distributed_sche.Base.{
  All, All-map, Bool, Bool-cases, List, Option, Option-cases, String, ap, coalesce, false, find,
  if◌then◌else◌, inl, inr, length, none, order_by, refl, select, select-All, some, subst, sym, true,
  true≢false, update, ℕ, ◌&&◌, ◌∙◌, ◌≡◌, ◌≢◌,
}
use arbiter_distributed_sche.Autoscaler.{
  Cluster, Fault, ScalingConfig, can_scale, filter_autoscaled, is_autoscaled,
}
use arbiter_distributed_sche.Autoscaler.Choices.{
  Host, Reading, is_sustained, pending_from, set_runner,
}
use arbiter_distributed_sche.Autoscaler.Keeping.{Kept, reclaim_each-Holds}
use arbiter_distributed_sche.Autoscaler.Scaling.{
  announce_launch, next_hostname, scale_up, worker_spec,
}
use arbiter_distributed_sche.Autoscaler.Ticks.{
  ensured_network, launch_below, launched, on_ticker, reclaim_each, scale_by, scaling_tick,
  with_network,
}
use arbiter_distributed_sche.Base.Int.{ltb_ℤ, pos, ℤ}
use arbiter_distributed_sche.Base.Keys.{IsUnique, find-update_ne}
use arbiter_distributed_sche.Base.Order.{All-both, All-order_by, All-select}
use arbiter_distributed_sche.Base.Owner.{owner_is_found}
use arbiter_distributed_sche.Base.Text.{str_append}
use arbiter_distributed_sche.Detector.Fresh.{Died-Untouched, Untouched, Untouched-trans}
use arbiter_distributed_sche.Detector.Visits.{Died-IsUnique, committed-keeps}
use arbiter_distributed_sche.Docker.{
  ContainerSummary, Engine, Try, list_autoscaled_workers, remove_container,
}
use arbiter_distributed_sche.Docker.Workers.{create_and_start_worker}
use arbiter_distributed_sche.Store.{
  Db, Ensures, Ensures-map, Node, Part, Result, Task, committed, cordoned, err, node_cordoned, ok,
  pending,
}
use arbiter_distributed_sche.Store.Allocation.{NodeAllocation, get_node_allocations, is_on}
use arbiter_distributed_sche.Store.Events.{insert_event}
use arbiter_distributed_sche.Store.Nodes.{
  is_node, list_nodes, mark_node_dead, update_node, update_node_status,
}
use arbiter_distributed_sche.Store.Tasks.{count_tasks_by_status}
use arbiter_distributed_sche.Store.Valid.Dying.{Died, mark_node_dead-Ensures}

-- The node's row and tasks are as in `base`, and the ids of tasks are unique.
abbrev IsAside : String → Db → Db → Type 0
IsAside id base db = Untouched id base db × IsUnique (λ (x : Task). x.id) db.tasks

-- What a cordon that succeeds leaves.
abbrev WithCordon : Node → Db → Db → Type 0
WithCordon n db db' =
    (db'.nodes ≡ update (is_node n.id) (λ m. record m { status = cordoned }) db.nodes)
    × (db'.tasks ≡ db.tasks)

cordon-WithCordon :
    (now : ℕ) (n : Node) (message : List Part) (db : Db)
    → Ensures
        (λ m db'. WithCordon n db db')
        (update_node_status now n.id cordoned node_cordoned message db)
unfolding update_node_status update_node insert_event
cordon-WithCordon now n message db =
    elim (Option-cases (
      find (is_node n.id) (update (is_node n.id) (λ m. record m { status = cordoned }) db.nodes))) [
        | inl gone ↦ simp gone tt
        | inr (m, found) ↦ simp found (refl, refl)
      ]

WithCordon-IsAside :
    (id : String) (base db db' : Db) (n : Node)
    → id ≢ n.id
    → IsAside id base db
    → WithCordon n db db'
    → IsAside id base db'
WithCordon-IsAside id base db db' n ne (u, unique) (nodes, tasks) = (
  Untouched-trans id base db db' u (
    rw nodes (
        find-update_ne (λ m. m.id) id n.id (λ m. record m { status = cordoned }) db.nodes
          (λ m. refl) ne),
    rw tasks refl,
  ),
  subst (IsUnique (λ (x : Task). x.id)) (sym tasks) unique,
)

death-IsAside :
    (id : String) (base : Db) (now : ℕ) (n : Node) (db : Db)
    → id ≢ n.id
    → IsAside id base db
    → IsAside id base (committed db (mark_node_dead now n.id db))
death-IsAside id base now n db ne (u, unique) =
    committed-keeps (IsAside id base) db (mark_node_dead now n.id db) (u, unique)
      (Ensures-map (Died n.id db) (λ r db'. IsAside id base db') (mark_node_dead now n.id db)
        (λ r db' d.
          (Untouched-trans id base db db' u (Died-Untouched ne d), Died-IsUnique unique d))
        (mark_node_dead-Ensures now n.id db unique))

module _ {D : Type 0} (digits : ℤ → String) (engine : Engine D) (cfg : ScalingConfig) (host : Host)
    (id : String) (base : Db) where
  others_kept : Kept digits engine cfg host (λ db d. IsAside id base db) (λ n. id ≢ n.id)
  unfolding insert_event
  others_kept = record {
    removal = λ removed db d h. h;
    event = λ now entity type message db d h. h;
    cordoning = λ now n message db d ne h.
        Ensures-map (λ m db'. WithCordon n db db') (λ m db'. IsAside id base db')
          (update_node_status now n.id cordoned node_cordoned message db)
          (λ m db' w. WithCordon-IsAside id base db db' n ne h w)
          (cordon-WithCordon now n message db);
    death = λ now n db d ne h. death-IsAside id base now n db ne h;
  }

  announce-IsAside :
      (now : ℕ) (hostname : String) (x : Try String × D) (c : Cluster D)
      → IsAside id base c.db
      → IsAside id base (announce_launch digits engine now hostname x c).1.db
  unfolding announce_launch insert_event
  announce-IsAside now hostname (inl e, d) c h = h
  announce-IsAside now hostname (inr name, d) c h = h

  launched-IsAside :
      (t : Reading) (x : Option Fault × Cluster D)
      → IsAside id base x.1.db
      → IsAside id base (launched digits engine cfg host t x).1.db
  unfolding launched
  launched-IsAside t (some e, c) h = h
  launched-IsAside t (none, c) h = h

  scale_up-IsAside :
      (now : ℕ) (c : Cluster D)
      → IsAside id base c.db
      → IsAside id base (scale_up digits engine cfg now c).1.db
  unfolding scale_up
  scale_up-IsAside now c h =
      let named = next_hostname digits engine c.docker c.runner.seq in
      let cleared = remove_container engine (str_append "arbiter-" named.0) true c.docker in
      announce-IsAside now named.0
        (create_and_start_worker engine digits
          (worker_spec digits engine cfg c.runner.network named.0) cleared.1)
        (record c { runner = record c.runner { seq = named.1 } }) h

  launch_below-IsAside :
      (t : Reading) (allocs : String → NodeAllocation) (ns : List Node)
      (ws : Try (List ContainerSummary)) (c : Cluster D)
      → All (λ n. id ≢ n.id) ns
      → IsAside id base c.db
      → IsAside id base (launch_below digits engine cfg host t allocs ns ws c).1.db
  unfolding launch_below
  launch_below-IsAside t allocs ns (inl e) c k h = h
  launch_below-IsAside t allocs ns (inr ws) c k h =
      elim (Bool-cases (ltb_ℤ (pos (length ws)) cfg.max_autoscaled_workers)) [
        | inl below ↦
            rw below
              (launched-IsAside t (scale_up digits engine cfg t.now c) (scale_up-IsAside t.now c h))
        | inr full ↦ rw full (
            reclaim_each-Holds digits engine cfg host (λ db d. IsAside id base db) (λ n. id ≢ n.id)
              others_kept t allocs ns c k h)
      ]

  scale_by-IsAside :
      (t : Reading) (ns : List Node) (r : Result ((String → NodeAllocation) × Db)) (c : Cluster D)
      → All (λ n. id ≢ n.id) ns
      → IsAside id base c.db
      → IsAside id base (scale_by digits engine cfg host t ns r c).1.db
  unfolding scale_by
  scale_by-IsAside t ns (err e) c k h = h
  scale_by-IsAside t ns (ok (allocs, db)) c k h =
      go (can_scale cfg c.runner.last_scale_action t.tested_at && is_sustained cfg t.now since)
    where
      since : Option ℕ
      since =
          pending_from cfg (pos (count_tasks_by_status c.db pending)) t.now c.runner.pending_since

      c' : Cluster D
      c' = set_runner (λ r. record r { pending_since = since }) c

      go :
          (b : Bool)
          → IsAside id base
              (if b
                then launch_below digits engine cfg host t allocs ns
                    (list_autoscaled_workers engine c.docker)
                    c'
                else reclaim_each digits engine cfg host t allocs ns c').1.db
      go false =
          reclaim_each-Holds digits engine cfg host (λ db d. IsAside id base db) (λ n. id ≢ n.id)
            others_kept t allocs ns c' k h
      go true = launch_below-IsAside t allocs ns (list_autoscaled_workers engine c.docker) c' k h

  with_network-IsAside :
      (t : Reading) (network : Try String) (c : Cluster D)
      → All (λ n. id ≢ n.id) (filter_autoscaled (list_nodes c.db))
      → IsAside id base c.db
      → IsAside id base (with_network digits engine cfg host t network c).1.db
  unfolding with_network
  with_network-IsAside t (inl e) c k h = h
  with_network-IsAside t (inr name) c k h =
      scale_by-IsAside t (filter_autoscaled (list_nodes c.db)) (get_node_allocations c.db)
        (set_runner (λ r. record r { network = name }) c) k h

-- The nodes that a tick may reclaim are not the given one, which is not the autoscaler's.
not_filtered :
    (id : String) (db : Db) (n : Node)
    → IsUnique (λ m. m.id) db.nodes
    → find (is_node id) db.nodes ≡ some n
    → is_autoscaled n ≡ false
    → All (λ m. id ≢ m.id) (filter_autoscaled (list_nodes db))
unfolding filter_autoscaled list_nodes
not_filtered id db n u e foreign =
    let owned = owner_is_found (λ m. m.id) id db.nodes u e in
    let sorted = All-order_by (λ m. m.id ≡ id → m ≡ n) (λ m. m.created_at) db.nodes owned in
    let rows = order_by (λ m. m.created_at) db.nodes in
    All-map (select is_autoscaled rows)
      (λ m h q. true≢false (sym h.1 ∙ ap is_autoscaled (h.0 (sym q)) ∙ foreign))
      (All-both (λ m. m.id ≡ id → m ≡ n) (λ m. is_autoscaled m ≡ true) (select is_autoscaled rows)
        (All-select (λ m. m.id ≡ id → m ≡ n) is_autoscaled rows sorted)
        (select-All is_autoscaled rows))

-- Whatever the backlog, the clock and Docker answer, a tick of the autoscaler leaves the row of a
-- node that does not carry the label `autoscaled=true`, and the tasks on it, as they are. No two nodes
-- and no two tasks have one id.
pub tick_spares_other_nodes :
    {D : Type 0} (digits : ℤ → String) (engine : Engine D) (cfg : ScalingConfig) (host : Host)
    (leader : Option Bool) (t : Reading) (c : Cluster D) (id : String) (n : Node)
    → IsUnique (λ (m : Node). m.id) c.db.nodes
    → IsUnique (λ (x : Task). x.id) c.db.tasks
    → find (is_node id) c.db.nodes ≡ some n
    → is_autoscaled n ≡ false
    → let db' = (on_ticker digits engine cfg host leader t c).1.db in
      (find (is_node id) db'.nodes ≡ find (is_node id) c.db.nodes)
      × (select (is_on id) db'.tasks ≡ select (is_on id) c.db.tasks)
unfolding on_ticker scaling_tick
tick_spares_other_nodes digits engine cfg host leader t c id n un ut e foreign =
    elim (Bool-cases (coalesce leader true)) [
      | inl led ↦
          rw led
            (with_network-IsAside digits engine cfg host id c.db t
              (ensured_network digits engine cfg host c) c (not_filtered id c.db n un e foreign)
              ((refl, refl), ut)).0
      | inr follows ↦ rw follows (refl, refl)
    ]

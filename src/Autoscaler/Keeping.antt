-- ===== src/Autoscaler/Keeping.antt =====
-- internal/autoscaler/autoscaler.go: what the requests that a step makes preserve, the step
-- preserves.
use arbiter_distributed_sche.Base.{
  All, Bool-cases, List, Option, String, [], find, inl, inr, none, some, true, ℕ, ◌∷◌,
}
use arbiter_distributed_sche.Autoscaler.{Cluster, Fault, ScalingConfig, set_idle}
use arbiter_distributed_sche.Autoscaler.Choices.{
  Choice, Host, Reading, choose, keep_busy, keep_idle, noted_idle, reclaim, set_runner,
}
use arbiter_distributed_sche.Autoscaler.Scaling.{
  cordon, is_worker_of, reclaim_cordoned, remove_listed, remove_worker, retire, scale_down,
}
use arbiter_distributed_sche.Autoscaler.Ticks.{reclaim_each, reclaim_one, reclaimed}
use arbiter_distributed_sche.Base.Int.{ℤ}
use arbiter_distributed_sche.Base.Text.{str_append}
use arbiter_distributed_sche.Docker.{
  ContainerSummary, Engine, Try, list_autoscaled_workers, remove_container,
}
use arbiter_distributed_sche.Store.{
  Db, Ensures, EventType, Node, Part, Result, bind-Ensures, committed, cordoned, err, node_cordoned,
  node_entity, node_scaled_down, ok, pure, same_node_status, text,
}
use arbiter_distributed_sche.Store.Allocation.{NodeAllocation}
use arbiter_distributed_sche.Store.Events.{insert_event}
use arbiter_distributed_sche.Store.Nodes.{mark_node_dead, update_node_status}

-- `I` speaks of the database and of Docker. Removals, the events of the audit trail, and the cordon
-- and the death of the nodes in `K` preserve it.
module _ {D : Type 0} (digits : ℤ → String) (engine : Engine D) (cfg : ScalingConfig) (host : Host)
    (I : Db → D → Type 0) (K : Node → Type 0) where
  pub record Kept : Type 0 where
    pub removal : (id : String) (db : Db) (d : D) → I db d → I db (engine.delete id true d).1
    pub event :
        (now : ℕ) (id : String) (type : EventType) (message : List Part) (db : Db) (d : D)
        → I db d
        → I (committed db (insert_event now node_entity id type message db)) d
    pub cordoning :
        (now : ℕ) (n : Node) (message : List Part) (db : Db) (d : D)
        → K n
        → I db d
        → Ensures (λ m db'. I db' d) (update_node_status now n.id cordoned node_cordoned message db)
    pub death :
        (now : ℕ) (n : Node) (db : Db) (d : D)
        → K n
        → I db d
        → I (committed db (mark_node_dead now n.id db)) d

  -- `I` after a step.
  abbrev pub Holds : Cluster D → Type 0
  Holds c = I c.db c.docker

  module _ (kept : Kept) where
    retire-Holds :
        (now : ℕ) (n : Node) (x : Try (Unit {0}) × D) (c : Cluster D)
        → K n
        → I c.db x.1
        → Holds (retire digits engine now n x c).1
    unfolding retire
    retire-Holds now n (inl e, d) c k h = h
    retire-Holds now n (inr u, d) c k h =
        kept.event now n.id node_scaled_down
          (text "autoscaler scaled down: reclaimed " ∷ text n.hostname ∷ [])
          (committed c.db (mark_node_dead now n.id c.db)) d (kept.death now n c.db d k h)

    remove_listed-keeps :
        (hostname : String) (ws : Try (List ContainerSummary)) (db : Db) (d : D)
        → I db d
        → I db (remove_listed digits engine hostname ws d).1
    unfolding remove_listed remove_worker remove_container
    remove_listed-keeps hostname (inl e) db d h = h
    remove_listed-keeps hostname (inr ws) db d h =
        go (find (is_worker_of digits engine hostname) ws)
      where
        go : (w : Option ContainerSummary) → I db (remove_worker digits engine hostname w d).1
        go none = kept.removal (str_append "arbiter-" hostname) db d h
        go (some w) = kept.removal w.id db d h

    reclaim_cordoned-Holds :
        (now : ℕ) (n : Node) (r : Result (Unit {0} × Db)) (c : Cluster D)
        → K n
        → Ensures (λ u db. I db c.docker) r
        → Holds c
        → Holds (reclaim_cordoned digits engine now n r c).1
    unfolding reclaim_cordoned
    reclaim_cordoned-Holds now n (err e) c k r h = h
    reclaim_cordoned-Holds now n (ok (u, db)) c k r h =
        retire-Holds now n
          (remove_listed digits engine n.hostname (list_autoscaled_workers engine c.docker)
            c.docker)
          (record c { db = db }) k
          (remove_listed-keeps n.hostname (list_autoscaled_workers engine c.docker) db c.docker r)

    cordon-Ensures :
        (now : ℕ) (n : Node) (c : Cluster D)
        → K n
        → Holds c
        → Ensures (λ u db. I db c.docker) (cordon digits engine now n c.db)
    unfolding cordon
    cordon-Ensures now n c k h = elim (Bool-cases (same_node_status n.status cordoned)) [
      | inl is_cordoned ↦ rw is_cordoned h
      | inr is_open ↦ rw is_open (
          bind-Ensures (λ m db. I db c.docker) (λ u db. I db c.docker)
            (update_node_status now n.id cordoned node_cordoned
              (text "autoscaler cordoning idle node "
                ∷ text n.hostname
                ∷ text " before reclaim"
                ∷ [])
              c.db)
            (λ m. pure tt)
            (kept.cordoning now n
              (text "autoscaler cordoning idle node "
                ∷ text n.hostname
                ∷ text " before reclaim"
                ∷ [])
              c.db c.docker k h)
            (λ m db i. i))
    ]

    scale_down-Holds :
        (now : ℕ) (n : Node) (c : Cluster D)
        → K n
        → Holds c
        → Holds (scale_down digits engine now n c).1
    unfolding scale_down
    scale_down-Holds now n c k h =
        reclaim_cordoned-Holds now n (cordon digits engine now n c.db) c k
          (cordon-Ensures now n c k h) h

    reclaimed-Holds :
        (t : Reading) (n : Node) (x : Option Fault × Cluster D)
        → Holds x.1
        → Holds (reclaimed digits engine cfg host t n x).1
    unfolding reclaimed
    reclaimed-Holds t n (some e, c) h = h
    reclaimed-Holds t n (none, c) h = h

    pub reclaim_each-Holds :
        (t : Reading) (allocs : String → NodeAllocation) (ns : List Node) (c : Cluster D)
        → All K ns
        → Holds c
        → Holds (reclaim_each digits engine cfg host t allocs ns c).1
    unfolding reclaim_each reclaim_one noted_idle set_idle
    reclaim_each-Holds t allocs [] c k h = h
    reclaim_each-Holds t allocs (n ∷ ns) c k h =
        go (choose cfg t allocs c.runner n) (λ c' h'. reclaim_each-Holds t allocs ns c' k.1 h')
      where
        go :
            (v : Choice)
            → ((c' : Cluster D)
                → Holds c'
                → Holds (reclaim_each digits engine cfg host t allocs ns c').1)
            → Holds
                (reclaim_one digits engine cfg host t n
                  (reclaim_each digits engine cfg host t allocs ns)
                  v
                  c).1
        go keep_busy others = others (set_runner (set_idle n.id none) c) h
        go keep_idle others = others (set_runner (noted_idle t n) c) h
        go reclaim others =
            reclaimed-Holds t n (scale_down digits engine t.now n (set_runner (noted_idle t n) c))
              (scale_down-Holds t.now n (set_runner (noted_idle t n) c) k.0 h)

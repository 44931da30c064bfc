-- ===== src/Autoscaler/Scaling.antt =====
-- internal/autoscaler/autoscaler.go: `scaleUp` and `scaleDown`.
use arbiter_distributed_sche.Base.{
  Bool, List, Option, String, [], false, find, if◌then◌else◌, inl, inr, is_some, none, some, str_eq,
  suc, true, zero, ℕ, ◌||◌, ◌∷◌,
}
use arbiter_distributed_sche.Autoscaler.{
  Cluster, Fault, ScalingConfig, of_docker, of_store, short_id,
}
use arbiter_distributed_sche.Base.Int.{pos, ℤ, ◌+ℤ◌}
use arbiter_distributed_sche.Base.Text.{str_append}
use arbiter_distributed_sche.Docker.{
  ContainerSummary, Engine, Try, WorkerSpec, list_autoscaled_workers, remove_container,
}
use arbiter_distributed_sche.Docker.Workers.{create_and_start_worker}
use arbiter_distributed_sche.Scheduler.Plugins.{label_of}
use arbiter_distributed_sche.Store.{
  Db, Node, Result, Tx, and_then, committed, cordoned, err, node_cordoned, node_entity,
  node_scaled_down, node_scaled_up, ok, pure, same_node_status, text,
}
use arbiter_distributed_sche.Store.Events.{insert_event}
use arbiter_distributed_sche.Store.Nodes.{mark_node_dead, update_node_status}

-- `digits` is `%d`, `engine` the Docker Engine.
module _ {D : Type 0} (digits : ℤ → String) (engine : Engine D) where
  -- The keys of `used`, of a listing that may have failed.
  unfoldable pub used_names : Try (List ContainerSummary) → List String
  used_names (inl e) = []
  used_names (inr []) = []
  used_names (inr (w ∷ ws)) =
      let h = label_of w.labels "arbiter.hostname" in
      let others = w.name ∷ used_names (inr ws) in if str_eq h "" then others else h ∷ others

  unfoldable pub hostname_at : ℤ → String
  hostname_at i = str_append "worker-auto-" (digits i)

  unfoldable pub is_used : List String → String → Bool
  is_used used h =
      is_some (find (str_eq h) used) || is_some (find (str_eq (str_append "arbiter-" h)) used)

  -- The loop from `i`, for so many rounds.
  unfoldable pub first_unused : ℕ → ℕ → List String → Option String
  unfolding hostname_at is_used
  first_unused zero i used = none
  first_unused (suc n) i used = elim (is_used used (hostname_at (pos i))) [
    | false ↦ some (hostname_at (pos i))
    | true ↦ first_unused n (suc i) used
  ]

  -- `nextHostname`: the name, and the sequence number that it leaves.
  unfoldable pub named_or_numbered : ℤ → Option String → String × ℤ
  unfolding hostname_at
  named_or_numbered seq none = (hostname_at (seq +ℤ pos 1), seq +ℤ pos 1)
  named_or_numbered seq (some h) = (h, seq)

  unfoldable pub next_hostname : D → ℤ → String × ℤ
  unfolding named_or_numbered first_unused used_names
  next_hostname d seq =
      named_or_numbered seq (first_unused 9_999 1 (used_names (list_autoscaled_workers engine d)))

  unfoldable pub worker_spec : ScalingConfig → String → String → WorkerSpec
  worker_spec cfg network hostname = record {
    name = str_append "arbiter-" hostname;
    hostname = hostname;
    image = cfg.worker_image;
    network = network;
    scheduler_addr = cfg.scheduler_addr;
    scheduler_addrs = cfg.scheduler_addrs;
    cpu_millicores = cfg.worker_cpu_millicores;
    mem_mb = cfg.worker_mem_mb;
    http_addr = "";
    extra_hosts = cfg.extra_hosts;
    docker_sock_bind = "";
  }

  -- The event behind a launch. An error of the insert is logged only.
  unfoldable pub announce_launch :
      ℕ → String → Try String × D → Cluster D → Option Fault × Cluster D
  announce_launch now hostname (inl e, d) c = (some (of_docker e), record c { docker = d })
  announce_launch now hostname (inr id, d) c = (
    none,
    record c {
      docker = d;
      db = committed c.db (
          insert_event now node_entity hostname node_scaled_up
            (text "autoscaler scaled up: launched "
              ∷ text hostname
              ∷ text " (container="
              ∷ text (short_id id)
              ∷ text ")"
              ∷ [])
            c.db);
    },
  )

  -- `scaleUp`
  unfoldable pub scale_up : ScalingConfig → ℕ → Cluster D → Option Fault × Cluster D
  unfolding announce_launch worker_spec next_hostname
  scale_up cfg now c =
      let named = next_hostname c.docker c.runner.seq in
      let hostname = named.0 in
      let cleared = remove_container engine (str_append "arbiter-" hostname) true c.docker in
      announce_launch now hostname
        (create_and_start_worker engine digits (worker_spec cfg c.runner.network hostname)
          cleared.1)
        (record c { runner = record c.runner { seq = named.1 } })

  -- `w.Labels[…] == node.Hostname || w.Name == "arbiter-"+node.Hostname`
  unfoldable pub is_worker_of : String → ContainerSummary → Bool
  is_worker_of hostname w =
      str_eq (label_of w.labels "arbiter.hostname") hostname
      || str_eq w.name (str_append "arbiter-" hostname)

  -- The removal: by the first container that fits, or by the name, where errors do not count.
  unfoldable pub remove_worker : String → Option ContainerSummary → D → Try (Unit {0}) × D
  remove_worker hostname none d =
      (inr tt, (remove_container engine (str_append "arbiter-" hostname) true d).1)
  remove_worker hostname (some w) d = remove_container engine w.id true d

  unfoldable pub remove_listed : String → Try (List ContainerSummary) → D → Try (Unit {0}) × D
  unfolding remove_worker is_worker_of
  remove_listed hostname (inl e) d = (inl e, d)
  remove_listed hostname (inr ws) d = remove_worker hostname (find (is_worker_of hostname) ws) d

  -- Once the container is gone: the node is marked dead, where an error is logged only.
  unfoldable pub retire : ℕ → Node → Try (Unit {0}) × D → Cluster D → Option Fault × Cluster D
  retire now node (inl e, d) c = (some (of_docker e), record c { docker = d })
  retire now node (inr u, d) c =
      let died = committed c.db (mark_node_dead now node.id c.db) in
      (
        none,
        record c {
          docker = d;
          db = committed died (
              insert_event now node_entity node.id node_scaled_down
                (text "autoscaler scaled down: reclaimed " ∷ text node.hostname ∷ []) died);
        },
      )

  unfoldable pub reclaim_cordoned :
      ℕ → Node → Result (Unit {0} × Db) → Cluster D → Option Fault × Cluster D
  unfolding retire remove_listed
  reclaim_cordoned now node (err e) c = (some (of_store e), c)
  reclaim_cordoned now node (ok (u, db)) c =
      retire now node
        (remove_listed node.hostname (list_autoscaled_workers engine c.docker) c.docker)
        (record c { db = db })

  -- The cordon before a reclaim, unless the node has been cordoned.
  unfoldable pub cordon : ℕ → Node → Tx (Unit {0})
  cordon now node db =
      if same_node_status node.status cordoned
      then ok (tt, db)
      else and_then
          (update_node_status now node.id cordoned node_cordoned
            (text "autoscaler cordoning idle node "
              ∷ text node.hostname
              ∷ text " before reclaim"
              ∷ [])
            db)
          (λ n. pure tt)

  -- `scaleDown`
  unfoldable pub scale_down : ℕ → Node → Cluster D → Option Fault × Cluster D
  unfolding reclaim_cordoned cordon
  scale_down now node c = reclaim_cordoned now node (cordon now node c.db) c

-- ===== src/Examples/Autoscaler.antt =====
-- An autoscaler over one static worker and one container of its own.
use arbiter_distributed_sche.Base.{
  All, List, String, [], arith, find, map, none, not, refl, select, some, str_eq, true, ◌∷◌, ◌≡◌,
}
use arbiter_distributed_sche.Autoscaler.{Cluster, ScalingConfig, is_autoscaled}
use arbiter_distributed_sche.Autoscaler.Capacity.{tick_at_cap_only_removes}
use arbiter_distributed_sche.Autoscaler.Caution.{tick_waits_out_cooldown}
use arbiter_distributed_sche.Autoscaler.Choices.{Host, Reading}
use arbiter_distributed_sche.Autoscaler.Owned.{tick_spares_other_nodes}
use arbiter_distributed_sche.Autoscaler.Ticks.{on_ticker}
use arbiter_distributed_sche.Base.Int.{pos, ℤ}
use arbiter_distributed_sche.Base.Order.{All-select}
use arbiter_distributed_sche.Docker.{
  Listed, list_autoscaled_workers, listing_of, name_of, summary_of,
}
use arbiter_distributed_sche.Examples.Data.{cluster, node_1, task_pending}
use arbiter_distributed_sche.Examples.Docker.{docker}
use arbiter_distributed_sche.Store.Allocation.{is_on}
use arbiter_distributed_sche.Store.Nodes.{is_node}

abbrev digits : ℤ → String
digits i = "1"

abbrev own_worker : List Listed
own_worker =
    record {
      id = "w1";
      names = "/arbiter-worker-auto-1" ∷ [];
      labels = ("arbiter.autoscaled", "true") ∷ ("arbiter.hostname", "worker-auto-1") ∷ [];
      state = "running";
    }
    ∷ []

abbrev settings : ScalingConfig
settings = record {
  enabled = true;
  poll_interval = pos 2;
  pending_threshold = pos 1;
  sustain_window = pos 8;
  idle_window = pos 20;
  max_autoscaled_workers = pos 1;
  cooldown = pos 5;
  worker_image = "worker";
  docker_network = "net";
  scheduler_addr = "";
  scheduler_addrs = "";
  worker_cpu_millicores = pos 2_000;
  worker_mem_mb = pos 1_024;
  extra_hosts = [];
}

abbrev here_host : Host
here_host = record { network_env = ""; hostname = none }

-- One task has waited since 80.
abbrev backlogged : Cluster (List Listed)
backlogged = record {
  db = cluster task_pending;
  docker = own_worker;
  runner = record {
    pending_since = some 80;
    idle_since = λ id. none;
    last_scale_action = some 97;
    network = "net";
    seq = pos 0;
  };
}

abbrev at_100 : Reading
at_100 = record { now = 100; tested_at = 100; acted_at = 101 }

abbrev at_200 : Reading
at_200 = record { now = 200; tested_at = 200; acted_at = 201 }

tick_waits_out_cooldown_example :
    let x = on_ticker digits docker settings here_host none at_100 backlogged in
    (x.1.db ≡ cluster task_pending) × (x.1.docker ≡ own_worker)
tick_waits_out_cooldown_example =
    tick_waits_out_cooldown digits docker settings here_host none at_100 backlogged 5 97 refl
      (omega arith) refl (omega arith)

-- All that is there is the worker of the autoscaler.
abbrev IsOwn : List Listed → Type 0
IsOwn d = All (λ c. c.id ≡ "w1") d

IsOwn-removal : (id : String) (d : List Listed) → IsOwn d → IsOwn (docker.delete id true d).1
IsOwn-removal id d h = All-select (λ c. c.id ≡ "w1") (λ c. not (str_eq c.id id)) d h

tick_at_cap_only_removes_example :
    IsOwn (on_ticker digits docker settings here_host none at_200 backlogged).1.docker
unfolding list_autoscaled_workers listing_of summary_of name_of
tick_at_cap_only_removes_example =
    tick_at_cap_only_removes digits docker settings here_host IsOwn IsOwn-removal none at_200
      backlogged (map summary_of own_worker) refl refl (refl, tt)

tick_spares_other_nodes_example :
    let db' = (on_ticker digits docker settings here_host none at_200 backlogged).1.db in
    (find (is_node "n1") db'.nodes ≡ some node_1)
    × (select (is_on "n1") db'.tasks ≡ select (is_on "n1") (task_pending ∷ []))
unfolding is_autoscaled
tick_spares_other_nodes_example =
    tick_spares_other_nodes digits docker settings here_host none at_200 backlogged "n1" node_1
      (refl, tt) (refl, tt) refl refl
